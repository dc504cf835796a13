-- ===== src/Connections/RoundRobin.antt =====
-- pool.go, ConnectionPool: how AcquireFromPool and AcquireChannel choose a slot. The counter is an
-- int32 that is incremented for ever.
use eamqp.Base.{
  ℕ, zero, suc, ◌+◌, ◌-◌, ◌%◌, ◌^◌, ◌≤◌, ◌<◌, ◌≡◌, ◌≢◌, refl, sym, ap, ◌∙◌, inl, inr, Bool-cases,
  ◌==◌, false, Option, none, some, List, [], ◌∷◌, returns, panics, arith, length, length-set,
  get_elem?,
}
use eamqp.Base.Int.{pos, negsuc}
use eamqp.Amqp.{Amqp, ChannelOptions}
use eamqp.Pool.{ChannelPool}
use eamqp.Pool.Steps.{Turn}
use eamqp.Connections.{
  ConnectionPool, advance_current, index_of, acquire_from_pool, at_index, use_slot, use_found,
}

-- A negative counter gives a negative index, except where it is a multiple of n.
index_of-negative :
    (c n : ℕ)
    → 0 < n
    → n < 2 ^ 31
    → 2 ^ 31 ≤ c
    → c < 2 ^ 32
    → (2 ^ 32 - c) % n ≢ 0
    → index_of (c % 2 ^ 32) n ≡ returns (negsuc ((2 ^ 32 - c) % n - 1))
unfolding index_of
index_of-negative c n h m lo hi r =
    let en : n % 2 ^ 32 ≡ n = omega arith in
    let ec : c % 2 ^ 32 ≡ c = omega arith in
    let es : suc (2 ^ 32 - c - 1) ≡ 2 ^ 32 - c = omega arith in ground (arith, en, ec, es)

get_elem?_in_range {ℓ} :
    {A : Type ℓ} (xs : List A) (i : ℕ) → i < length xs → (a : A) × (get_elem? xs i ≡ some a)
get_elem?_in_range [] i h = absurd (omega arith)
get_elem?_in_range (x ∷ xs) zero h = (x, refl)
get_elem?_in_range (x ∷ xs) (suc i) h = get_elem?_in_range xs i (omega arith)

index_of-lt : (c n : ℕ) → 0 < n → n < 2 ^ 31 → c < 2 ^ 31 → index_of c n ≡ returns (pos (c % n))
unfolding index_of
index_of-lt c n h m k = let e : n % 2 ^ 32 ≡ n = omega arith in ground (arith, e)

mod_lt : (a n : ℕ) → 0 < n → a % n < n
mod_lt a n h = grind arith

residues_differ : (a d n : ℕ) → 0 < d → d < n → (a + d) % n ≢ a % n
residues_differ a d n h k e = grind arith

module _ {W : Type 0} (amqp : Amqp W) (opts : ChannelOptions W) where
  -- The pool and the world after the first calls of AcquireFromPool; `turns` says how each goes.
  pub calls : (ℕ → Turn) → ℕ → ConnectionPool → W → ConnectionPool × W
  calls turns zero p w = (p, w)
  calls turns (suc k) p w =
      let (p₁, w₁) = calls turns k p w in
      let (o, p₂, w₂) = acquire_from_pool amqp opts (turns k) p₁ w₁ in (p₂, w₂)

  -- The call after `k` others is the Acquire of the channel pool in slot `i`.
  abbrev pub ChoosesSlot : (ℕ → Turn) → ℕ → ConnectionPool → W → ℕ → Type 0
  ChoosesSlot turns k p w i =
      let (q, v) = calls turns k p w in
      (slot : Option ChannelPool) × (get_elem? q.channel_pools i ≡ some slot)
      × (acquire_from_pool amqp opts (turns k) q v
          ≡ use_slot amqp opts (turns k) i slot (advance_current q) v)

  found_at :
      (t : Turn) (i : ℕ) (p q : ConnectionPool) (w : W) (o : Option (Option ChannelPool))
      → get_elem? p.channel_pools i ≡ o
      → i < length p.channel_pools
      → (slot : Option ChannelPool) × (get_elem? p.channel_pools i ≡ some slot)
        × (use_found amqp opts t i o q w ≡ use_slot amqp opts t i slot q w)
  unfolding use_found
  found_at t i p q w (some slot) at h = (slot, at, refl)
  found_at t i p q w none at h =
      let (a, there) = get_elem?_in_range p.channel_pools i h in ground arith

  acquire_from_pool-open :
      (t : Turn) (p : ConnectionPool) (w : W)
      → p.closed ≡ false
      → (length p.channel_pools == 0) ≡ false
      → acquire_from_pool amqp opts t p w
        ≡ at_index amqp opts t
            (index_of (advance_current p).current (length p.channel_pools))
            (advance_current p)
            w
  unfolding acquire_from_pool
  acquire_from_pool-open t p w o s = simp (o, s) refl

  acquire_from_pool-slot :
      (t : Turn) (p : ConnectionPool) (w : W)
      → p.closed ≡ false
      → 0 < length p.channel_pools
      → length p.channel_pools < 2 ^ 31
      → p.current + 1 < 2 ^ 31
      → let i = (p.current + 1) % length p.channel_pools in
        (slot : Option ChannelPool) × (get_elem? p.channel_pools i ≡ some slot)
        × (acquire_from_pool amqp opts t p w ≡ use_slot amqp opts t i slot (advance_current p) w)
  unfolding at_index
  acquire_from_pool-slot t p w o h m b =
      let n = length p.channel_pools in
      let c : (p.current + 1) % 2 ^ 32 ≡ p.current + 1 = omega arith in
      let some_slots : (n == 0) ≡ false = ground arith in
      let i = (p.current + 1) % n in
      let at : index_of (advance_current p).current n ≡ returns (pos i) =
        ap (λ x. index_of x n) c ∙ index_of-lt (p.current + 1) n h m b in
      let (slot, there, e) =
        found_at t i p (advance_current p) w (get_elem? p.channel_pools i) refl
          (mod_lt (p.current + 1) n h) in
      (
        slot,
        there,
        acquire_from_pool-open t p w o some_slots
            ∙ ap (λ x. at_index amqp opts t x (advance_current p) w) at
            ∙ e,
      )

  -- What the calls leave of the pool.
  record After (n c : ℕ) (p : ConnectionPool) : Type 0 where
    unclosed : p.closed ≡ false
    count : length p.channel_pools ≡ n
    counter : p.current ≡ c

  use_slot-After :
      (t : Turn) (i n c : ℕ) (s : Option ChannelPool) (p : ConnectionPool) (w : W)
      → After n c p
      → After n c (use_slot amqp opts t i s p w).1
  unfolding use_slot
  use_slot-After t i n c none p w a = a
  use_slot-After t i n c (some cp) p w a = record {
    unclosed = a.unclosed;
    count = length-set p.channel_pools i _ ∙ a.count;
    counter = a.counter;
  }

  calls-After :
      (turns : ℕ → Turn) (k : ℕ) (p : ConnectionPool) (w : W)
      → p.closed ≡ false
      → 0 < length p.channel_pools
      → length p.channel_pools < 2 ^ 31
      → p.current + k < 2 ^ 31
      → After (length p.channel_pools) (p.current + k) (calls turns k p w).0
  unfolding calls
  calls-After turns zero p w o h m b = record { unclosed = o; count = refl; counter = omega arith }
  calls-After turns (suc k) p w o h m b =
      let (q, v) = calls turns k p w in
      let a = calls-After turns k p w o h m (omega arith) in
      let (slot, at, e) =
        acquire_from_pool-slot (turns k) q v a.unclosed (omega (arith, a.count, h))
          (omega (arith, a.count, m)) (omega (arith, a.counter, b)) in
      rw e (
        use_slot-After (turns k) _ (length p.channel_pools) (p.current + suc k) slot
          (advance_current q) v
          (record {
            unclosed = a.unclosed;
            count = a.count;
            counter = omega (arith, a.counter, b);
          }))

  chooses :
      (turns : ℕ → Turn) (k : ℕ) (p : ConnectionPool) (w : W)
      → p.closed ≡ false
      → 0 < length p.channel_pools
      → length p.channel_pools < 2 ^ 31
      → p.current + suc k < 2 ^ 31
      → ChoosesSlot turns k p w ((p.current + suc k) % length p.channel_pools)
  chooses turns k p w o h m b =
      let (q, v) = calls turns k p w in
      let a = calls-After turns k p w o h m (omega arith) in
      let s : q.current + 1 ≡ p.current + suc k = omega (arith, a.counter) in
      let one =
        acquire_from_pool-slot (turns k) q v a.unclosed (omega (arith, a.count, h))
          (omega (arith, a.count, m)) (omega (arith, a.counter, b)) in
      rw (← s, ← a.count) one

  -- On an open pool of n slots, below the counter's overflow, any n consecutive calls of
  -- AcquireFromPool are each the Acquire of one slot's channel pool, or the error of an empty slot, and
  -- of n different slots: the calls are spread evenly. (No other goroutine uses the pool meanwhile; the
  -- calls may lease channels, fail or block.)
  pub round_robin :
      (turns : ℕ → Turn) (p : ConnectionPool) (w : W) (k l : ℕ)
      → p.closed ≡ false
      → 0 < length p.channel_pools
      → length p.channel_pools < 2 ^ 31
      → k < l
      → l < k + length p.channel_pools
      → p.current + suc l < 2 ^ 31
      → (i : ℕ) × (j : ℕ) × (i ≢ j) × ChoosesSlot turns k p w i × ChoosesSlot turns l p w j
  round_robin turns p w k l o h m kl ln b =
      let n = length p.channel_pools in
      (
        (p.current + suc k) % n,
        (p.current + suc l) % n,
        λ e.
            residues_differ (p.current + suc k) (l - k) n (omega arith) (omega arith) (
              let s : p.current + suc k + (l - k) ≡ p.current + suc l = omega arith in
              rw s (sym e)),
        chooses turns k p w o h m (omega arith),
        chooses turns l p w o h m b,
      )

  slot-returns :
      (t : Turn) (i : ℕ) (p : ConnectionPool) (w : W) (s : Option ChannelPool)
      → (use_slot amqp opts t i s p w).0 ≢ panics
  unfolding use_slot
  slot-returns t i p w none e = cc
  slot-returns t i p w (some cp) e = cc

  found-returns :
      (t : Turn) (i : ℕ) (p : ConnectionPool) (w : W) (o : Option (Option ChannelPool))
      {s : Option ChannelPool}
      → o ≡ some s
      → (use_found amqp opts t i o p w).0 ≢ panics
  unfolding use_found
  found-returns t i p w none h = cc
  found-returns t i p w (some s) h = slot-returns t i p w s

  at_index-returns :
      (t : Turn) (p : ConnectionPool) (w : W) (i : ℕ)
      → i < length p.channel_pools
      → (at_index amqp opts t (returns (pos i)) p w).0 ≢ panics
  unfolding at_index
  at_index-returns t p w i h = found-returns t i p w _ (get_elem?_in_range p.channel_pools i h).1

  -- AcquireFromPool never panics as long as its counter has not reached the end of the int32 range.
  pub acquire_from_pool-returns :
      (t : Turn) (p : ConnectionPool) (w : W)
      → length p.channel_pools < 2 ^ 31
      → p.current + 1 < 2 ^ 31
      → (acquire_from_pool amqp opts t p w).0 ≢ panics
  unfolding acquire_from_pool
  acquire_from_pool-returns t p w m b =
      let n = length p.channel_pools in
      let c = (p.current + 1) % 2 ^ 32 in
      let small : c < 2 ^ 31 = omega arith in
      elim (Bool-cases (n == 0)) [
        | inl e ↦ ground arith
        | inr e ↦
            let pos_n : 0 < n = ground arith in
            let at = at_index-returns t (advance_current p) w (c % n) (mod_lt c n pos_n) in
            ground (arith, index_of-lt c n pos_n m small, at)
      ]

  -- Once the counter has passed 2^31 - 1 calls it is negative, and AcquireFromPool on an open pool
  -- panics with an index out of range at every call whose counter is not a multiple of the number of
  -- slots, until the counter wraps round to 0.
  pub acquire_from_pool-panics :
      (t : Turn) (p : ConnectionPool) (w : W)
      → p.closed ≡ false
      → 0 < length p.channel_pools
      → length p.channel_pools < 2 ^ 31
      → 2 ^ 31 ≤ p.current + 1
      → p.current + 1 < 2 ^ 32
      → (2 ^ 32 - (p.current + 1)) % length p.channel_pools ≢ 0
      → (acquire_from_pool amqp opts t p w).0 ≡ panics
  unfolding acquire_from_pool at_index
  acquire_from_pool-panics t p w o h m lo hi r =
      ground (arith, index_of-negative (p.current + 1) (length p.channel_pools) h m lo hi r)
