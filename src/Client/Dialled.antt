-- ===== src/Client/Dialled.antt =====
-- client.go, Client.Reconnect: what the client is left with.
use eamqp.Base.{
  ℕ, ◌<◌, ◌≡◌, refl, false, ◌&&◌, ◌⊎◌, inl, inr, Option, none, some, List, [], ◌∷◌, Error, Result,
  Outcome, ok, err, returns, connect_failed, length, All, arith, Bool-cases,
}
use eamqp.Base.Int.{pos, leb_ℤ}
use eamqp.Amqp.{Amqp, ChannelOptions}
use eamqp.Amqp.Raw.{Metric}
use eamqp.Connections.{ConnectionPool, new_connection_pool}
use eamqp.Connections.Dial.{dial_all}
use eamqp.Connections.Dialling.{AllOrNothing, dial_all-AllOrNothing}
use eamqp.Connections.Slots.{Closing, IsFilled, IsShut}
use eamqp.Client.{
  Client, dialled, dial_pool, dial_uris, dial, reconnect, close_single, close_pooled,
}

abbrev pub PoolIsFilled : Option ConnectionPool → Type 0
PoolIsFilled none = ⊥
PoolIsFilled (some p) = All IsFilled p.connections × All IsFilled p.channel_pools

module _ {W : Type 0} (amqp : Amqp W) (opts : ChannelOptions W) (record_metric : Metric → W → W)
    (laws : Closing amqp) where
  abbrev pub PoolIsDown : W → Option ConnectionPool → Type 0
  PoolIsDown w none = Unit {0}
  PoolIsDown w (some p) = All (IsShut amqp w) p.connections

  -- The client has what it is to work with, or an error is returned and it holds no open connection.
  abbrev pub IsRenewed : Outcome (Option Error) × Client × W → Type 0
  IsRenewed r =
      ((r.0 ≡ returns none) × (IsFilled r.1.conn ⊎ PoolIsFilled r.1.pool))
      ⊎ ((e : Error) × (r.0 ≡ returns (some e)) × (r.1.conn ≡ none) × PoolIsDown r.2 r.1.pool)

  module _ {U : Type 0} (dial_connection pool_dial : U → W → Result ℕ × W) where
    pool-IsRenewed :
        (c : Client) (r : Outcome (Option Error) × ConnectionPool × W)
        → c.conn ≡ none
        → AllOrNothing amqp laws r
        → IsRenewed (r.0, record c { pool = some r.1 }, r.2)
    pool-IsRenewed c r n (inl (e, conns, pools)) = inl (e, inr (conns, pools))
    pool-IsRenewed c r n (inr (e, eq, shut)) = inr (connect_failed e, eq, n, shut)

    dial_pool-IsRenewed :
        (us : List U) (c : Client) (w : W)
        → 0 < length us
        → c.conn ≡ none
        → IsRenewed (dial_pool amqp opts record_metric dial_connection pool_dial us c w)
    unfolding dial_pool
    dial_pool-IsRenewed us c w h n =
        pool-IsRenewed c
          (dial_all amqp pool_dial c.config.channels us
            (new_connection_pool c.config.pool_size (length us)) w)
          n (dial_all-AllOrNothing amqp laws pool_dial c.config.channels us c.config.pool_size w h)

    dialled-IsRenewed :
        (c : Client) (r : Result ℕ × W)
        → c.conn ≡ none
        → c.pool ≡ none
        → IsRenewed (dialled amqp opts record_metric dial_connection pool_dial c r)
    unfolding dialled
    dialled-IsRenewed c (err e, w) n m = inr (e, refl, n, rw m tt)
    dialled-IsRenewed c (ok d, w) n m = inl (refl, inl tt)

    dial_uris-IsRenewed :
        (us : List U) (c : Client) (w : W)
        → 0 < length us
        → c.conn ≡ none
        → c.pool ≡ none
        → IsRenewed (dial_uris amqp opts record_metric dial_connection pool_dial us c w)
    unfolding dial_uris
    dial_uris-IsRenewed [] c w h n m = absurd (omega arith)
    dial_uris-IsRenewed (u ∷ []) c w h n m =
        elim (Bool-cases
          (leb_ℤ c.config.pool_size (pos 1) && leb_ℤ c.config.channels.channel_pool_size (pos 0))) [
            | inl single ↦ rw single (dialled-IsRenewed c (dial_connection u w) n m)
            | inr pooled ↦ rw pooled (dial_pool-IsRenewed (u ∷ []) c w h n)
          ]
    dial_uris-IsRenewed (u ∷ v ∷ us) c w h n m = dial_pool-IsRenewed (u ∷ v ∷ us) c w h n

    pub dial-IsRenewed :
        (uris : Result (List U)) (c : Client) (w : W)
        → ((us : List U) → uris ≡ ok us → 0 < length us)
        → c.conn ≡ none
        → c.pool ≡ none
        → IsRenewed (dial amqp opts record_metric dial_connection pool_dial uris c w)
    unfolding dial
    dial-IsRenewed (err e) c w h n m = inr (e, refl, n, rw m tt)
    dial-IsRenewed (ok us) c w h n m = dial_uris-IsRenewed us c w (h us refl) n m

    pub reconnect-open :
        (uris : Result (List U)) (c : Client) (w : W)
        → c.closed ≡ false
        → reconnect amqp opts record_metric dial_connection pool_dial uris c w ≡ (
            let w₁ = (close_single amqp opts record_metric c.conn w).1 in
            let (e, p, w₂) = close_pooled amqp opts record_metric c.pool none w₁ in
            dial amqp opts record_metric dial_connection pool_dial uris
              (record c { conn = none; pool = none })
              w₂)
    unfolding reconnect
    reconnect-open uris c w h = simp h refl
