-- ===== src/Connections/Dialling.antt =====
-- pool.go, ConnectionPool.dialAll: all the connections, or none.
use eamqp.Base.{
  ℕ, zero, suc, ◌+◌, ◌<◌, ◌≤◌, ◌≡◌, refl, ◌⊎◌, inl, inr, true, Option, none, some, List, [], ◌∷◌,
  Error, Result, Outcome, returns, connect_failed, arith, length, length-set, length-replicate,
  length-take, Result-cases, take, All,
}
use eamqp.Base.Int.{ℤ}
use eamqp.Amqp.{Amqp}
use eamqp.Pool.{ChannelPool, PoolConfig, new_channel_pool}
use eamqp.Connections.{ConnectionPool, new_connection_pool, slots}
use eamqp.Connections.Dial.{close_first, give_up, fill, dial_loop, dial_all}
use eamqp.Connections.Slots.{
  Closing, IsFilled, IsShut, Slots, Slots-set, Slots-replicate, Slots-full, slots-le, nil-IsShut,
}

module _ {W : Type 0} (amqp : Amqp W) (laws : Closing amqp) where
  pub close_first-keeps :
      (i : ℕ) (cs : List (Option ℕ)) (w w' : W) (d : ℕ)
      → close_first amqp i cs w ≡ returns w'
      → amqp.connection_is_closed d w ≡ true
      → amqp.connection_is_closed d w' ≡ true
  unfolding close_first
  close_first-keeps zero cs w w' d e h = ground arith
  close_first-keeps (suc i) [] w w' d e h = ground arith
  close_first-keeps (suc i) (none ∷ cs) w w' d e h = ground arith
  close_first-keeps (suc i) (some c ∷ cs) w w' d e h =
      close_first-keeps i cs (amqp.close_connection c w).1 w' d e (laws.stays c d w h)

  pub close_first-shuts :
      (i : ℕ) (cs : List (Option ℕ)) (w : W)
      → Slots i cs
      → (w' : W) × (close_first amqp i cs w ≡ returns w') × All (IsShut amqp w') cs
  unfolding close_first
  close_first-shuts zero cs w f = (w, refl, nil-IsShut amqp w cs f)
  close_first-shuts (suc i) [] w f = absurd f
  close_first-shuts (suc i) (none ∷ cs) w f = absurd f.0
  close_first-shuts (suc i) (some c ∷ cs) w f =
      let (w', e, s) = close_first-shuts i cs (amqp.close_connection c w).1 f.1 in
      (w', e, (close_first-keeps i cs (amqp.close_connection c w).1 w' c e (laws.closes c w), s))

  -- All is connected, or an error is returned and what was connected is closed again.
  abbrev pub AllOrNothing : Outcome (Option Error) × ConnectionPool × W → Type 0
  AllOrNothing r =
      ((r.0 ≡ returns none) × All IsFilled r.1.connections × All IsFilled r.1.channel_pools)
      ⊎ ((e : Error) × (r.0 ≡ returns (some (connect_failed e)))
          × All (IsShut amqp r.2) r.1.connections)

  gave_up :
      (i : ℕ) (e : Error) (p : ConnectionPool) (w : W)
      → Slots i p.connections
      → AllOrNothing (give_up amqp e p (close_first amqp i p.connections w) w)
  gave_up i e p w f =
      let (w', eq, s) = close_first-shuts i p.connections w f in rw eq (inr (e, refl, s))

  module _ {U : Type 0} (dial : U → W → Result ℕ × W) (cfg : PoolConfig) where
    dial_loop-AllOrNothing :
        (us : List U) (i : ℕ) (p : ConnectionPool) (w : W)
        → i + length us ≡ length p.connections
        → length p.channel_pools ≡ length p.connections
        → Slots i p.connections
        → Slots i p.channel_pools
        → AllOrNothing (dial_loop amqp dial cfg us i p w)
    unfolding dial_loop
    dial_loop-AllOrNothing [] i p w e l fc fp = inl (
      refl,
      Slots-full i p.connections (omega arith) fc,
      Slots-full i p.channel_pools (omega arith) fp,
    )
    dial_loop-AllOrNothing (u ∷ us) i p w e l fc fp = elim (Result-cases (dial u w).0) [
      | inr (x, eq) ↦ rw (eq, dial_loop) (gave_up i x p (dial u w).1 fc)
      | inl (c, eq) ↦
          rw (eq, dial_loop)
            (dial_loop-AllOrNothing us (suc i) (fill amqp dial cfg i c p) (dial u w).1
              (omega (arith, length-set p.connections i (some c)))
              (omega (
                arith,
                length-set p.connections i (some c),
                length-set p.channel_pools i (some (new_channel_pool c cfg)),
              ))
              (Slots-set i p.connections c (omega arith) fc)
              (Slots-set i p.channel_pools (new_channel_pool c cfg) (omega arith) fp))
    ]

    pub dial_all-fits :
        (uris : List U) (p : ConnectionPool) (w : W)
        → length p.connections ≤ length uris
        → dial_all amqp dial cfg uris p w
          ≡ dial_loop amqp dial cfg (take (length p.connections) uris) 0 p w
    unfolding dial_all
    dial_all-fits uris p w h = ground arith

    -- dialAll on a new connection pool for one or more URIs never panics. Either it returns nil, and
    -- every slot has a connection and a channel pool; or it returns an error, and no slot is left
    -- with an open connection.
    pub dial_all-AllOrNothing :
        (uris : List U) (size : ℤ) (w : W)
        → 0 < length uris
        → AllOrNothing (dial_all amqp dial cfg uris (new_connection_pool size (length uris)) w)
    unfolding new_connection_pool
    dial_all-AllOrNothing uris size w h =
        let n = slots size (length uris) in
        let fits : n ≤ length uris = slots-le size (length uris) h in
        let lc = length-replicate {A = Option ℕ} n none in
        let lp = length-replicate {A = Option ChannelPool} n none in
        let p = new_connection_pool size (length uris) in
        rw (dial_all-fits uris p w (omega (arith, lc, fits))) (
          dial_loop-AllOrNothing (take (length p.connections) uris) 0 p w
            (omega (arith, length-take (length p.connections) uris, lc, fits))
            (omega (arith, lc, lp)) (Slots-replicate ℕ n) (Slots-replicate ChannelPool n))
