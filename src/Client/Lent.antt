-- ===== src/Client/Lent.antt =====
-- client.go and pool.go: what AcquireFromPool leaves of the slots' books, and that either callback of
-- its lease restores them.
pub mod Ended
use eamqp.Base.{
  ℕ, zero, suc, ◌^◌, ◌<◌, ◌≡◌, ◌≢◌, refl, sym, ap, ◌∙◌, Bool, true, false, Option, none, some, List,
  [], ◌∷◌, Error, Result, ok, err, Outcome, returns, panics, arith, get_elem?, get_elem?-set, set,
  if◌then◌else◌, Bool-cases, Option-cases, inl, inr, length, ◌==◌,
}
use eamqp.Base.Int.{ℤ, pos, negsuc}
use eamqp.Amqp.{Amqp, ChannelOptions}
use eamqp.Amqp.Raw.{Metric}
use eamqp.Pool.{ChannelPool}
use eamqp.Pool.Steps.{Pc, leased, failed, Turn}
use eamqp.Pool.Acquire.{acquire}
use eamqp.Pool.Release.{release_now, discard_now}
use eamqp.Pool.Lease.{Stocked, IsBalanced, GivesBack, lease_of, acquire-IsBalanced}
use eamqp.Connections.{
  ConnectionPool, Acquired, lease, refused, blocks, outcome, acquire_from_pool, at_index, use_found,
  use_slot, index_of, advance_current,
}
use eamqp.Client.Wrapped.{on_release, on_discard, give_back, at_slot}

-- In each slot with a channel pool, `k` of its channels are leased, and its books agree with that.
abbrev pub IsStocked : ℕ → (ℕ → ℕ) → List (Option ChannelPool) → Type 0
IsStocked n k pools =
    (i : ℕ) (cp : ChannelPool) → get_elem? pools i ≡ some (some cp) → Stocked n (k i) cp

get_elem?-set_same :
    {A : Type 0} (xs : List A) (i : ℕ) (v w : A)
    → get_elem? xs i ≡ some w
    → get_elem? (set xs i v) i ≡ some v
get_elem?-set_same [] i v w h = ground arith
get_elem?-set_same (x ∷ xs) zero v w h = refl
get_elem?-set_same (x ∷ xs) (suc i) v w h = get_elem?-set_same xs i v w h

module _ (n : ℕ) (k : ℕ → ℕ) where
  -- The slots but one.
  abbrev Others : ℕ → List (Option ChannelPool) → Type 0
  Others i pools =
      (j : ℕ) (q : ChannelPool) → i ≢ j → get_elem? pools j ≡ some (some q) → Stocked n (k j) q

  set-Others :
      (i : ℕ) (pools : List (Option ChannelPool)) (cp : ChannelPool)
      → Others i pools
      → Others i (set pools i (some cp))
  set-Others i pools cp o j q d h = elim (get_elem?-set pools i (some cp) j (some q) h) [
    | inl (e, same) ↦ absurd (d e)
    | inr (e, there) ↦ o j q d there
  ]

  set-IsStocked :
      (i : ℕ) (pools : List (Option ChannelPool)) (cp : ChannelPool)
      → Others i pools
      → Stocked n (k i) cp
      → IsStocked n k (set pools i (some cp))
  set-IsStocked i pools cp o s j q h = elim (get_elem?-set pools i (some cp) j (some q) h) [
    | inl (e, same) ↦ rw (← e, ← some_inj same) s
    | inr (d, there) ↦ o j q d there
  ]
    where
      some_inj : {x y : ChannelPool} → some x ≡ some y → x ≡ y
      some_inj h = cc

  module _ {W : Type 0} (amqp : Amqp W) (record_metric : Metric → W → W) where
    give_back-IsStocked :
        (f : ChannelPool → W → ChannelPool × W) (i : ℕ) (p : ConnectionPool) (cp : ChannelPool)
        (w : W)
        → get_elem? p.channel_pools i ≡ some (some cp)
        → Others i p.channel_pools
        → Stocked n (k i) (f cp w).0
        → IsStocked n k (give_back amqp record_metric f i (p, w)).0.channel_pools
    unfolding give_back at_slot
    give_back-IsStocked f i p cp w there o s = rw there (set-IsStocked i p.channel_pools _ o s)

    -- The pool can be restored: as it is, or by either callback of the lease, whatever the world is.
    abbrev pub Restores : Acquired → ConnectionPool → Type 0
    Restores (refused e) p = IsStocked n k p.channel_pools
    Restores (blocks i) p = IsStocked n k p.channel_pools
    Restores (lease i c) p =
        (u : W)
        → IsStocked n k (on_release amqp record_metric i c (p, u)).0.channel_pools
          × IsStocked n k (on_discard amqp record_metric i c (p, u)).0.channel_pools

    module _ (small : n < 2 ^ 63) (opts : ChannelOptions W) (t : Turn) where
      slot-Restores :
          (i : ℕ) (pc : Pc) (p : ConnectionPool) (cp cp' : ChannelPool)
          → get_elem? p.channel_pools i ≡ some (some cp)
          → Others i p.channel_pools
          → GivesBack n small amqp opts t (k i) (lease_of pc) cp'
          → Restores (outcome i pc) (record p { channel_pools = set p.channel_pools i (some cp') })
      unfolding outcome on_release on_discard
      slot-Restores i (leased c) p cp cp' there o g = λ u.
          let q = record p { channel_pools = set p.channel_pools i (some cp') } in
          let at = get_elem?-set_same p.channel_pools i (some cp') (some cp) there in
          let others = set-Others i p.channel_pools cp' o in
          (
            give_back-IsStocked (release_now amqp (some c)) i q cp' u at others (g u).0,
            give_back-IsStocked (discard_now amqp (some c)) i q cp' u at others (g u).1,
          )
      slot-Restores i (failed e) p cp cp' there o g = set-IsStocked i p.channel_pools cp' o g
      slot-Restores i _ p cp cp' there o g = set-IsStocked i p.channel_pools cp' o g

      abbrev pub RestoresAfter : Outcome Acquired × ConnectionPool × W → Type 0
      RestoresAfter (panics, p, w) = IsStocked n k p.channel_pools
      RestoresAfter (returns a, p, w) = Restores a p

      use_slot-RestoresAfter :
          (i : ℕ) (slot : Option ChannelPool) (p : ConnectionPool) (w : W)
          → get_elem? p.channel_pools i ≡ some slot
          → IsStocked n k p.channel_pools
          → RestoresAfter (use_slot amqp opts t i slot p w)
      unfolding use_slot
      use_slot-RestoresAfter i none p w e s = s
      use_slot-RestoresAfter i (some cp) p w e s =
          slot-Restores i _ p cp _ e (λ j q d. s j q)
            (acquire-IsBalanced n small amqp opts t (k i) cp w (s i cp e))

      use_found-RestoresAfter :
          (i : ℕ) (slot : Option (Option ChannelPool)) (p : ConnectionPool) (w : W)
          → get_elem? p.channel_pools i ≡ slot
          → IsStocked n k p.channel_pools
          → RestoresAfter (use_found amqp opts t i slot p w)
      unfolding use_found
      use_found-RestoresAfter i none p w e s = s
      use_found-RestoresAfter i (some slot) p w e s = use_slot-RestoresAfter i slot p w e s

      at_index-RestoresAfter :
          (i : Outcome ℤ) (p : ConnectionPool) (w : W)
          → IsStocked n k p.channel_pools
          → RestoresAfter (at_index amqp opts t i p w)
      unfolding at_index
      at_index-RestoresAfter panics p w s = s
      at_index-RestoresAfter (returns (negsuc i)) p w s = s
      at_index-RestoresAfter (returns (pos i)) p w s = use_found-RestoresAfter i _ p w refl s

      either_RestoresAfter :
          (b : Bool) (x y : Outcome Acquired × ConnectionPool × W)
          → RestoresAfter x
          → RestoresAfter y
          → RestoresAfter (if b then x else y)
      either_RestoresAfter true x y hx hy = hx
      either_RestoresAfter false x y hx hy = hy

      pub acquire_from_pool-RestoresAfter :
          (p : ConnectionPool) (w : W)
          → IsStocked n k p.channel_pools
          → RestoresAfter (acquire_from_pool amqp opts t p w)
      unfolding acquire_from_pool
      acquire_from_pool-RestoresAfter p w s = either_RestoresAfter p.closed _ _ s (
          either_RestoresAfter (length p.channel_pools == 0) _ _ s
            (at_index-RestoresAfter _ (advance_current p) w s))
