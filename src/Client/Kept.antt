-- ===== src/Client/Kept.antt =====
-- client.go: which connections a client holds when it has dialled, and what Reconnect leaves open.
use eamqp.Base.{
  ℕ, ◌<◌, ◌≡◌, refl, ◌⊎◌, inl, inr, true, false, ◌&&◌, Option, none, some, List, [], ◌∷◌, Error,
  Result, Outcome, ok, err, returns, panics, length, arith, Bool-cases,
}
use eamqp.Base.Int.{pos, leb_ℤ}
use eamqp.Amqp.{Amqp, ChannelOptions}
use eamqp.Amqp.Raw.{Metric}
use eamqp.Connections.{ConnectionPool, new_connection_pool}
use eamqp.Connections.Dial.{dial_all}
use eamqp.Connections.Leaks.{OpensOnlyItsOwn, Covered, IsKept, dial_all-IsKept}
use eamqp.Connections.Shutdown.{close-covers}
use eamqp.Connections.Slots.{Closing, ClosingChannels, IsFilled}
use eamqp.Client.{
  Client, dialled, dial_pool, dial_uris, dial, reconnect, close_single, close_pooled,
}
use eamqp.Client.Dialled.{PoolIsFilled, IsRenewed, dial-IsRenewed, reconnect-open}
use eamqp.Client.Shut.{HasOne}

module _ {W : Type 0} (amqp : Amqp W) where
  abbrev pub Shut : ℕ → W → Type 0
  Shut d w = amqp.connection_is_closed d w ≡ true

  abbrev pub InPool : ℕ → W → Option ConnectionPool → Type 0
  InPool d w none = ⊥
  InPool d w (some p) = Covered amqp d p.connections w

  -- The connection is closed, or the client's.
  abbrev pub IsHeld : ℕ → W → Client → Type 0
  IsHeld d w c = Shut d w ⊎ (c.conn ≡ some d) ⊎ InPool d w c.pool

  abbrev pub DialKeeps : ℕ → Outcome (Option Error) × Client × W → Type 0
  DialKeeps d (returns none, c, w) = IsHeld d w c
  DialKeeps d (returns (some e), c, w) = Shut d w
  DialKeeps d (panics, c, w) = ⊥

  -- Recording, or logging, opens no connection again.
  abbrev pub KeepsShut : {A : Type 0} → (A → W → W) → Type 0
  KeepsShut {A} f = (a : A) (d : ℕ) (w : W) → Shut d w → Shut d (f a w)

  -- The client has what it is to work with, and no connection is open beside; or an error is returned
  -- and no connection is open at all.
  abbrev pub IsRedialled : ℕ → Outcome (Option Error) × Client × W → Type 0
  IsRedialled d (returns none, c, w) = (IsFilled c.conn ⊎ PoolIsFilled c.pool) × IsHeld d w c
  IsRedialled d (returns (some e), c, w) = Shut d w
  IsRedialled d (panics, c, w) = ⊥

  module _ (laws : Closing amqp) (opts : ChannelOptions W) (record_metric : Metric → W → W)
      (records : KeepsShut record_metric) (d : ℕ) where
    module _ {U : Type 0} (dials pool_dials : U → W → Result ℕ × W)
        (own : OpensOnlyItsOwn amqp dials) (pool_own : OpensOnlyItsOwn amqp pool_dials) where
      pooled-DialKeeps :
          (k : Client) (r : Outcome (Option Error) × ConnectionPool × W)
          → IsKept amqp d r
          → DialKeeps d (r.0, record k { pool = some r.1 }, r.2)
      pooled-DialKeeps k (returns none, p, w) h = inr (inr h)
      pooled-DialKeeps k (returns (some e), p, w) h = h
      pooled-DialKeeps k (panics, p, w) h = h

      dial_pool-DialKeeps :
          (us : List U) (k : Client) (w : W)
          → 0 < length us
          → Shut d w
          → DialKeeps d (dial_pool amqp opts record_metric dials pool_dials us k w)
      unfolding dial_pool
      dial_pool-DialKeeps us k w l h =
          pooled-DialKeeps k
            (dial_all amqp pool_dials k.config.channels us
              (new_connection_pool k.config.pool_size (length us)) w)
            (dial_all-IsKept amqp laws pool_dials k.config.channels pool_own d us k.config.pool_size
              w l h)

      dialled-DialKeeps :
          (k : Client) (r : Result ℕ × W)
          → (r.0 ≡ ok d) ⊎ Shut d r.1
          → DialKeeps d (dialled amqp opts record_metric dials pool_dials k r)
      unfolding dialled
      dialled-DialKeeps k (ok x, w) (inl h) = inr (inl (ground arith))
      dialled-DialKeeps k (ok x, w) (inr h) = inl (records _ d w h)
      dialled-DialKeeps k (err e, w) (inl h) = ground arith
      dialled-DialKeeps k (err e, w) (inr h) = h

      dial_uris-DialKeeps :
          (us : List U) (k : Client) (w : W)
          → 0 < length us
          → Shut d w
          → DialKeeps d (dial_uris amqp opts record_metric dials pool_dials us k w)
      unfolding dial_uris
      dial_uris-DialKeeps [] k w l h = absurd (omega arith)
      dial_uris-DialKeeps (u ∷ []) k w l h =
          elim (Bool-cases (
            leb_ℤ k.config.pool_size (pos 1)
            && leb_ℤ k.config.channels.channel_pool_size (pos 0))) [
              | inl single ↦ rw single (dialled-DialKeeps k (dials u w) (own u w d h))
              | inr pooled ↦ rw pooled (dial_pool-DialKeeps (u ∷ []) k w l h)
            ]
      dial_uris-DialKeeps (u ∷ v ∷ us) k w l h = dial_pool-DialKeeps (u ∷ v ∷ us) k w l h

      pub dial-DialKeeps :
          (us : Result (List U)) (k : Client) (w : W)
          → ((l : List U) → us ≡ ok l → 0 < length l)
          → Shut d w
          → DialKeeps d (dial amqp opts record_metric dials pool_dials us k w)
      unfolding dial
      dial-DialKeeps (err e) k w l h = h
      dial-DialKeeps (ok us) k w l h = dial_uris-DialKeeps us k w (l us refl) h

      redialled :
          (r : Outcome (Option Error) × Client × W)
          → IsRenewed amqp opts record_metric laws r
          → DialKeeps d r
          → IsRedialled d r
      redialled (returns none, k, w) (inl h) keeps = (h.1, keeps)
      redialled (returns none, k, w) (inr (e, eq, n, down)) keeps = ground arith
      redialled (returns (some e), k, w) h keeps = keeps
      redialled (panics, k, w) h keeps = keeps

    -- Reconnect closes what the client holds before it dials.
    dropped :
        (below : ClosingChannels amqp) (conn : Option ℕ) (pool : Option ConnectionPool) (w : W)
        → HasOne amqp opts record_metric conn pool
        → Shut d w ⊎ (conn ≡ some d) ⊎ InPool d w pool
        → Shut d
            (close_pooled amqp opts record_metric pool none
              (close_single amqp opts record_metric conn w).1).2
    unfolding close_single close_pooled
    dropped below none none w one (inl h) = h
    dropped below none none w one (inr (inl h)) = ground arith
    dropped below none none w one (inr (inr h)) = absurd h
    dropped below (some x) none w one (inl h) = records _ d _ (laws.stays x d w h)
    dropped below (some x) none w one (inr (inl h)) =
        let same : x ≡ d = ground arith in records _ d _ (rw same (laws.closes d w))
    dropped below (some x) none w one (inr (inr h)) = absurd h
    dropped below none (some p) w one (inl h) = close-covers amqp laws below p w d one.0 (inl h)
    dropped below none (some p) w one (inr (inl h)) = ground arith
    dropped below none (some p) w one (inr (inr h)) = close-covers amqp laws below p w d one.0 h
    dropped below (some x) (some p) w one h = absurd one

    module _ {U : Type 0} (dials pool_dials : U → W → Result ℕ × W)
        (own : OpensOnlyItsOwn amqp dials) (pool_own : OpensOnlyItsOwn amqp pool_dials) where
      -- Reconnect on a client that has not been closed, and that has a connection, or a pool in use, or
      -- neither: it returns nil, and the client has a connection, or a pool with all its connections and
      -- channel pools, and each connection that was closed, not made, or the client's before is closed
      -- or the client's now; or it returns an error, and each such connection is closed. It does not
      -- panic. (A dial opens no connection but the one it returns; what is closed stays closed;
      -- parseURIs returns one URI or more, or an error; there is memory for the channel pools.)
      pub reconnect-IsRedialled :
          (below : ClosingChannels amqp) (uris : Result (List U)) (c : Client) (w : W)
          → ((us : List U) → uris ≡ ok us → 0 < length us)
          → c.closed ≡ false
          → HasOne amqp opts record_metric c.conn c.pool
          → IsHeld d w c
          → IsRedialled d (reconnect amqp opts record_metric dials pool_dials uris c w)
      reconnect-IsRedialled below uris c w h o one held =
          let k = record c { conn = none; pool = none } in
          let w₁ = (close_single amqp opts record_metric c.conn w).1 in
          let w₂ = (close_pooled amqp opts record_metric c.pool none w₁).2 in
          rw (reconnect-open amqp opts record_metric laws dials pool_dials uris c w o) (
            redialled dials pool_dials own pool_own _
              (dial-IsRenewed amqp opts record_metric laws dials pool_dials uris k w₂ h refl refl)
              (dial-DialKeeps dials pool_dials own pool_own uris k w₂ h
                (dropped below c.conn c.pool w one held)))
