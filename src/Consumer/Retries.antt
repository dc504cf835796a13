-- ===== src/Consumer/Retries.antt =====
-- consumer.go, ConsumeWithRetry: how often the handler is called.
use eamqp.Base.{
  ℕ, zero, suc, ◌+◌, ◌≤◌, ◌<◌, ◌≡◌, refl, ◌⊎◌, inl, inr, Bool, true, false, Option, none, some,
  Error, arith, if◌then◌else◌,
}
use eamqp.Base.Int.{ℤ, pos}
use eamqp.Amqp.Values.{Delivery}
use eamqp.Consumer.{Handler, exceeded, unless_done, retry_from, retrying}

module _ {S : Type 0} (sleep : ℤ → S → S) (handler : Handler S) (calls : S → ℕ) where
  -- The handler's calls are counted.
  pub record Counting : Type 0 where
    pub handles : (d : Delivery) (s : S) → calls (handler d s).1 ≡ suc (calls s)
    pub sleeps : (delay : ℤ) (s : S) → calls (sleep delay s) ≡ calls s

  -- Success after some of `n` calls, or all `n` made, and an error.
  abbrev pub Tried : ℕ → ℕ → Option Error × S → Type 0
  Tried n before r =
      ((r.0 ≡ none) × (before < calls r.1) × (calls r.1 ≤ before + n))
      ⊎ ((e : Error) × (r.0 ≡ some e) × (calls r.1 ≡ before + n))

  next-Tried :
      (n before : ℕ) (q : Option Error × S) (again : Option Error → S → Option Error × S)
      → calls q.1 ≡ suc before
      → Tried n (calls q.1) (again q.0 q.1)
      → Tried (suc n) before (unless_done q again)
  unfolding unless_done
  next-Tried n before (none, s) again c t = inl (refl, omega arith, omega arith)
  next-Tried n before (some e, s) again c (inl (r, lo, hi)) = inl (r, omega arith, omega arith)
  next-Tried n before (some e, s) again c (inr (x, r, all)) = inr (x, r, omega arith)

  module _ (counting : Counting) where
    retry_from-Tried :
        (n : ℕ) (first : Bool) (last : Option Error) (delay : ℤ) (d : Delivery) (s : S)
        → Tried n (calls s) (retry_from sleep n first last delay handler d s)
    unfolding retry_from
    retry_from-Tried zero first last delay d s = inr (exceeded last, refl, omega arith)
    retry_from-Tried (suc n) first last delay d s =
        let s₀ = if first then s else sleep delay s in
        let same : calls s₀ ≡ calls s = grind (arith, counting.sleeps) in
        next-Tried n (calls s) (handler d s₀) _ (grind (arith, counting.handles))
          (retry_from-Tried n false (handler d s₀).0 delay d (handler d s₀).1)

    -- With max_retries ≥ 0, ConsumeWithRetry's handler calls the given handler at least once and at
    -- most max_retries + 1 times, and where it returns an error it has made all max_retries + 1 calls.
    pub retrying-Tried :
        (max_retries : ℕ) (delay : ℤ) (d : Delivery) (s : S)
        → Tried (suc max_retries) (calls s) (retrying sleep (pos max_retries) delay handler d s)
    unfolding retrying
    retrying-Tried max_retries delay d s = retry_from-Tried (suc max_retries) true none delay d s
