-- ===== src/Reconnect/Attempts.antt =====
-- reconnect.go, ReconnectLoop: how often it dials.
use eamqp.Base.{
  ℕ, zero, suc, ◌+◌, ◌%◌, ◌^◌, ◌≤◌, ◌<◌, ◌≡◌, refl, ◌∙◌, true, false, Option, none, some, Error,
  arith, ℕ_discrete,
}
use eamqp.Base.Int.{ℤ, pos}
use eamqp.Reconnect.{
  Floats, Manager, Surroundings, minus_one, reset, next, pause, failed, dialled, reconnect_loop,
}

-- The attempt counter's bit pattern before the attempt `j`.
abbrev pub before : ℕ → ℕ
before j = (minus_one + j) % 2 ^ 32

module _ {F W : Type 0} (floats : Floats F) (around : Surroundings W)
    (dial : W → Option Error × W) where
  -- Dials are counted: each adds one, and sleeping and logging add none.
  pub record Counting (count : W → ℕ) : Type 0 where
    pub dials : (w : W) → count (dial w).1 ≡ suc (count w)
    pub warns : (a d : ℤ) (w : W) → count (around.warn a d w) ≡ count w
    pub reports : (a : ℤ) (e : Error) (w : W) → count (around.report a e w) ≡ count w
    pub sleeps : (d : ℤ) (w : W) → count (around.sleep d w) ≡ count w

  -- The dial fails as long as fewer than `k` have been made.
  abbrev pub FailsBelow : (W → ℕ) → ℕ → Type 0
  FailsBelow count k = (w : W) → count w < k → (e : Error) × ((dial w).0 ≡ some e)

  -- The loop's limit is `m` attempts, or there is none.
  abbrev pub IsLimited : ℕ → Manager F W → Type 0
  IsLimited m rm =
      (rm.policy.enabled ≡ true) × (rm.policy.max_attempts ≡ pos m) × (0 < m) × (m < 2 ^ 31)

  next-before :
      (m j : ℕ) (rm : Manager F W)
      → IsLimited m rm
      → j < m
      → rm.attempt ≡ before j
      → next rm ≡ (pos j, true, record rm { attempt = j })
  unfolding next
  next-before m j rm l h b = ground arith

  next-limit :
      (m : ℕ) (rm : Manager F W)
      → IsLimited m rm
      → rm.attempt ≡ before m
      → next rm ≡ (pos m, false, record rm { attempt = m })
  unfolding next
  next-limit m rm l b = ground arith

  module _ (count : W → ℕ) (counting : Counting count) where
    pause-count :
        (a : ℤ) (rm : Manager F W) (w : W) → count (pause floats around dial a rm w) ≡ count w
    unfolding pause
    pause-count a rm w = grind (arith, counting.sleeps, counting.warns)

    failed-count :
        (a : ℤ) (e : Error) (rm : Manager F W) (w : W)
        → count (failed floats around dial a e rm w) ≡ count w
    unfolding failed
    failed-count a e rm w = grind (arith, counting.reports)

    dialled-some :
        (a : ℤ) (e : Error) (r : Option Error × W) (rm : Manager F W)
        (rest : W → Option (Option Error × Manager F W × W))
        → r.0 ≡ some e
        → dialled floats around dial a r rm rest ≡ rest (failed floats around dial a e rm r.1)
    unfolding dialled
    dialled-some a e (none, w) rm rest h = ground arith
    dialled-some a e (some x, w) rm rest h = ground arith

    dialled-none :
        (a : ℤ) (r : Option Error × W) (rm : Manager F W)
        (rest : W → Option (Option Error × Manager F W × W))
        → r.0 ≡ none
        → dialled floats around dial a r rm rest ≡ some (none, reset rm, rm.on_reconnect a r.1)
    unfolding dialled
    dialled-none a (none, w) rm rest h = refl
    dialled-none a (some x, w) rm rest h = ground arith

    -- The round `j` dials once, fails, and goes on with the round `j + 1`.
    round :
        (m k j f : ℕ) (rm : Manager F W) (w : W)
        → IsLimited m rm
        → FailsBelow count k
        → j < m
        → j < k
        → rm.attempt ≡ before j
        → count w ≡ j
        → (w' : W) × (reconnect_loop floats around dial (suc f) rm w
            ≡ reconnect_loop floats around dial f (record rm { attempt = j }) w')
          × (count w' ≡ suc j)
    unfolding reconnect_loop
    round m k j f rm w l fails h b at cw =
        let rm' = record rm { attempt = j } in
        let v = pause floats around dial (pos j) rm' w in
        let cv : count v ≡ count w = pause-count (pos j) rm' w in
        let (e, de) = fails v (omega arith) in
        let w' = failed floats around dial (pos j) e rm' (dial v).1 in
        let cf : count w' ≡ count (dial v).1 = failed-count (pos j) e rm' (dial v).1 in
        let cd = counting.dials v in
        (w', rw (next-before m j rm l h at) (dialled-some (pos j) e (dial v) rm' _ de), omega arith)

    exhausted_from :
        (m j f : ℕ) (rm : Manager F W) (w : W)
        → IsLimited m rm
        → FailsBelow count m
        → j ≤ m
        → m < f + j
        → rm.attempt ≡ before j
        → count w ≡ j
        → (w' : W) × (reconnect_loop floats around dial f rm w
            ≡ some (none, record rm { attempt = m }, w'))
          × (count w' ≡ m)
    unfolding reconnect_loop
    exhausted_from m j zero rm w l fails h hf at cw = absurd (omega arith)
    exhausted_from m j (suc f) rm w l fails h hf at cw = elim (ℕ_discrete j m) [
      | yes e ↦ (w, rw (next-limit m rm l (rw (← e) at)) refl, omega arith)
      | no n ↦
          let (v, step, cv) = round m m j f rm w l fails (omega arith) (omega arith) at cw in
          let (w', rest, cw') =
            exhausted_from m (suc j) f (record rm { attempt = j }) v l fails (omega arith)
              (omega arith) (omega arith) cv in
          (w', step ∙ rest, cw')
    ]

    succeeds_from :
        (m k j f : ℕ) (rm : Manager F W) (w : W)
        → IsLimited m rm
        → FailsBelow count k
        → ((v : W) → count v ≡ k → (dial v).0 ≡ none)
        → k < m
        → j ≤ k
        → k < f + j
        → rm.attempt ≡ before j
        → count w ≡ j
        → (v : W) × (reconnect_loop floats around dial f rm w
            ≡ some (none, reset rm, rm.on_reconnect (pos k) v))
          × (count v ≡ suc k)
    unfolding reconnect_loop
    succeeds_from m k j zero rm w l fails good km h hf at cw = absurd (omega arith)
    succeeds_from m k j (suc f) rm w l fails good km h hf at cw = elim (ℕ_discrete j k) [
      | yes e ↦
          let rm' = record rm { attempt = k } in
          let v = pause floats around dial (pos k) rm' w in
          let cv : count v ≡ count w = pause-count (pos k) rm' w in
          let cd = counting.dials v in
          (
            (dial v).1,
            rw (next-before m k rm l km (rw (← e) at))
                (dialled-none (pos k) (dial v) rm' _ (good v (omega arith))),
            omega arith,
          )
      | no n ↦
          let (v, step, cv) = round m k j f rm w l fails (omega arith) (omega arith) at cw in
          let (w', rest, cw') =
            succeeds_from m k (suc j) f (record rm { attempt = j }) v l fails good km (omega arith)
              (omega arith) (omega arith) cv in
          (w', step ∙ rest, cw')
    ]

    -- With a limit of m attempts, 0 < m < 2^31, and a dial that fails each of the first m times,
    -- ReconnectLoop on a manager in its initial state makes exactly m dials and then returns nil,
    -- within m + 1 rounds.
    pub reconnect_loop-exhausts :
        (m f : ℕ) (rm : Manager F W) (w : W)
        → IsLimited m rm
        → rm.attempt ≡ minus_one
        → FailsBelow count m
        → count w ≡ 0
        → m < f
        → (w' : W) × (reconnect_loop floats around dial f rm w
            ≡ some (none, record rm { attempt = m }, w'))
          × (count w' ≡ m)
    reconnect_loop-exhausts m f rm w l at fails c h =
        exhausted_from m 0 f rm w l fails (omega arith) (omega arith) (omega arith) c

    -- With a limit of m attempts, 0 < m < 2^31, and a dial that fails the first k times, k < m, and
    -- then succeeds, ReconnectLoop on a manager in its initial state makes exactly k + 1 dials, calls
    -- OnReconnect with k after them, and returns nil with the manager in its initial state again,
    -- within k + 1 rounds.
    pub reconnect_loop-succeeds :
        (m k f : ℕ) (rm : Manager F W) (w : W)
        → IsLimited m rm
        → rm.attempt ≡ minus_one
        → FailsBelow count k
        → ((v : W) → count v ≡ k → (dial v).0 ≡ none)
        → count w ≡ 0
        → k < m
        → k < f
        → (v : W) × (reconnect_loop floats around dial f rm w
            ≡ some (none, rm, rm.on_reconnect (pos k) v))
          × (count v ≡ suc k)
    reconnect_loop-succeeds m k f rm w l at fails good c km h =
        let (v, e, cv) =
          succeeds_from m k 0 f rm w l fails good km (omega arith) (omega arith) (omega arith) c in
        (v, ground arith, cv)
