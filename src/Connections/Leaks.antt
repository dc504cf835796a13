-- ===== src/Connections/Leaks.antt =====
-- pool.go, ConnectionPool.dialAll: no connection is opened and then forgotten.
use eamqp.Base.{
  ℕ, zero, suc, ◌+◌, ◌<◌, ◌≤◌, ◌≡◌, refl, ◌⊎◌, inl, inr, true, Option, none, some, List, [], ◌∷◌,
  Error, Result, Outcome, ok, err, returns, panics, arith, length, length-set, length-replicate,
  length-take, Result-cases, take, set, get_elem?,
}
use eamqp.Base.Int.{ℤ}
use eamqp.Amqp.{Amqp}
use eamqp.Pool.{PoolConfig}
use eamqp.Connections.{ConnectionPool, new_connection_pool, slots}
use eamqp.Connections.Dial.{close_first, give_up, fill, dial_loop, dial_all}
use eamqp.Connections.Dialling.{close_first-keeps, close_first-shuts, dial_all-fits}
use eamqp.Connections.Slots.{Closing, shut_at, Slots, Slots-set, Slots-replicate, slots-le}

module _ {W : Type 0} (amqp : Amqp W) where
  -- A connection that is closed and that a dial does not return is closed after it.
  abbrev pub OpensOnlyItsOwn : {U : Type 0} → (U → W → Result ℕ × W) → Type 0
  OpensOnlyItsOwn {U} dial =
      (u : U) (w : W) (d : ℕ)
      → amqp.connection_is_closed d w ≡ true
      → ((dial u w).0 ≡ ok d) ⊎ (amqp.connection_is_closed d (dial u w).1 ≡ true)

  -- The connection is closed, or in one of the slots.
  abbrev pub Covered : ℕ → List (Option ℕ) → W → Type 0
  Covered d cs w =
      (amqp.connection_is_closed d w ≡ true) ⊎ ((j : ℕ) × (get_elem? cs j ≡ some (some d)))

  -- After an error the connection is closed; else it is closed or in a slot.
  abbrev pub IsKept : ℕ → Outcome (Option Error) × ConnectionPool × W → Type 0
  IsKept d (returns (some e), p, w) = amqp.connection_is_closed d w ≡ true
  IsKept d (returns none, p, w) = Covered d p.connections w
  IsKept d (panics, p, w) = ⊥

  set_nil :
      (i : ℕ) (cs : List (Option ℕ)) (j d c : ℕ)
      → Slots i cs
      → get_elem? cs j ≡ some (some d)
      → get_elem? (set cs i (some c)) j ≡ some (some d)
  set_nil i [] j d c f e = ground arith
  set_nil zero (none ∷ cs) zero d c f e = ground arith
  set_nil zero (some x ∷ cs) zero d c f e = absurd f.0
  set_nil zero (x ∷ cs) (suc j) d c f e = e
  set_nil (suc i) (x ∷ cs) zero d c f e = e
  set_nil (suc i) (x ∷ cs) (suc j) d c f e = set_nil i cs j d c f.1 e

  set_here :
      (i : ℕ) (cs : List (Option ℕ)) (c : ℕ)
      → i < length cs
      → get_elem? (set cs i (some c)) i ≡ some (some c)
  set_here i [] c h = elim h [ ]
  set_here zero (x ∷ cs) c h = refl
  set_here (suc i) (x ∷ cs) c h = set_here i cs c (omega arith)

  module _ (laws : Closing amqp) where
    given_up-IsKept :
        (i d : ℕ) (e : Error) (p : ConnectionPool) (w : W)
        → Slots i p.connections
        → Covered d p.connections w
        → IsKept d (give_up amqp e p (close_first amqp i p.connections w) w)
    given_up-IsKept i d e p w f (inl h) =
        let (w', eq, s) = close_first-shuts amqp laws i p.connections w f in
        rw eq (close_first-keeps amqp laws i p.connections w w' d eq h)
    given_up-IsKept i d e p w f (inr (j, at)) =
        let (w', eq, s) = close_first-shuts amqp laws i p.connections w f in
        rw eq (shut_at amqp p.connections j d w' s at)

    module _ {U : Type 0} (dial : U → W → Result ℕ × W) (cfg : PoolConfig)
        (own : OpensOnlyItsOwn dial) (d : ℕ) where
      dialled-Covered :
          (u : U) (w : W) (cs : List (Option ℕ))
          → Covered d cs w
          → ((dial u w).0 ≡ ok d) ⊎ Covered d cs (dial u w).1
      dialled-Covered u w cs (inr at) = inr (inr at)
      dialled-Covered u w cs (inl h) = elim (own u w d h) [ inl e ↦ inl e | inr k ↦ inr (inl k) ]

      filled-Covered :
          (i c : ℕ) (u : U) (w : W) (cs : List (Option ℕ))
          → i < length cs
          → Slots i cs
          → (dial u w).0 ≡ ok c
          → ((dial u w).0 ≡ ok d) ⊎ Covered d cs (dial u w).1
          → Covered d (set cs i (some c)) (dial u w).1
      filled-Covered i c u w cs l f e (inl own_dial) =
          let same : d ≡ c = ground arith in inr (i, rw same (set_here i cs c l))
      filled-Covered i c u w cs l f e (inr (inl h)) = inl h
      filled-Covered i c u w cs l f e (inr (inr (j, at))) = inr (j, set_nil i cs j d c f at)

      failed-Covered :
          (u : U) (w : W) (cs : List (Option ℕ)) (x : Error)
          → (dial u w).0 ≡ err x
          → ((dial u w).0 ≡ ok d) ⊎ Covered d cs (dial u w).1
          → Covered d cs (dial u w).1
      failed-Covered u w cs x e (inl h) = ground arith
      failed-Covered u w cs x e (inr k) = k

      dial_loop-IsKept :
          (us : List U) (i : ℕ) (p : ConnectionPool) (w : W)
          → i + length us ≡ length p.connections
          → Slots i p.connections
          → Covered d p.connections w
          → IsKept d (dial_loop amqp dial cfg us i p w)
      unfolding dial_loop
      dial_loop-IsKept [] i p w l f k = k
      dial_loop-IsKept (u ∷ us) i p w l f k =
          let after = dialled-Covered u w p.connections k in
          elim (Result-cases (dial u w).0) [
            | inr (x, eq) ↦
                rw (eq, dial_loop)
                  (given_up-IsKept i d x p (dial u w).1 f
                    (failed-Covered u w p.connections x eq after))
            | inl (c, eq) ↦
                rw (eq, dial_loop)
                  (dial_loop-IsKept us (suc i) (fill amqp dial cfg i c p) (dial u w).1
                    (omega (arith, length-set p.connections i (some c)))
                    (Slots-set i p.connections c (omega arith) f)
                    (filled-Covered i c u w p.connections (omega arith) f eq after))
          ]

      -- dialAll on a new connection pool for one or more URIs forgets no connection: any connection
      -- that was closed, or not made, before the call is closed after it if dialAll returns an error,
      -- and closed or in one of the pool's slots if it returns nil. (A dial opens no connection but the
      -- one that it returns, and a closed connection stays closed.)
      pub dial_all-IsKept :
          (uris : List U) (size : ℤ) (w : W)
          → 0 < length uris
          → amqp.connection_is_closed d w ≡ true
          → IsKept d (dial_all amqp dial cfg uris (new_connection_pool size (length uris)) w)
      unfolding new_connection_pool
      dial_all-IsKept uris size w h closed =
          let n = slots size (length uris) in
          let fits : n ≤ length uris = slots-le size (length uris) h in
          let lc = length-replicate {A = Option ℕ} n none in
          let p = new_connection_pool size (length uris) in
          rw (dial_all-fits amqp laws dial cfg uris p w (omega (arith, lc, fits))) (
            dial_loop-IsKept (take (length p.connections) uris) 0 p w
              (omega (arith, length-take (length p.connections) uris, lc, fits))
              (Slots-replicate ℕ n) (inl closed))
