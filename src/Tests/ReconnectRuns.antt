-- ===== src/Tests/ReconnectRuns.antt =====
-- Runs of the reconnect loop over a world that counts the dials.
use eamqp.Base.{
  ℕ, suc, ◌≡◌, refl, true, false, Option, none, some, Error, arith, if◌then◌else◌, ltb,
}
use eamqp.Base.{pool_closed}
use eamqp.Base.Int.{ℤ, pos, ◌*ℤ◌}
use eamqp.Reconnect.{Floats, Manager, Surroundings, minus_one, reconnect_loop}
use eamqp.Reconnect.Attempts.{
  Counting, FailsBelow, IsLimited, reconnect_loop-exhausts, reconnect_loop-succeeds,
}

-- Whole numbers in the place of floating-point ones.
abbrev whole : Floats ℤ
whole = record {
  of_int = λ a. a;
  to_int = λ a. a;
  times = λ a b. a *ℤ b;
  pow = λ a b. a *ℤ b;
  is_zero = λ a. false;
  is_greater = λ a b. false;
}

abbrev silence : Surroundings ℕ
silence = record { warn = λ a d w. w; report = λ a e w. w; sleep = λ d w. w }

abbrev dial_after : ℕ → ℕ → Option Error × ℕ
dial_after k w = (if ltb w k then some pool_closed else none, suc w)

abbrev three_attempts : Manager ℤ ℕ
three_attempts = record {
  policy = record {
    enabled = true;
    initial = pos 1;
    max = pos 30;
    multiplier = pos 2;
    max_attempts = pos 3;
  };
  attempt = minus_one;
  on_reconnect = λ a w. w;
  on_disconnect = λ e w. w;
  has_logger = true;
}

dial_after-Counting : (k : ℕ) → Counting whole silence (dial_after k) (λ w. w)
dial_after-Counting k = record {
  dials = λ w. refl;
  warns = λ a d w. refl;
  reports = λ a e w. refl;
  sleeps = λ d w. refl;
}

dial_after_fails : (k w : ℕ) → ltb w k ≡ true → (e : Error) × ((dial_after k w).0 ≡ some e)
dial_after_fails k w h = (pool_closed, ground arith)

dial_after-FailsBelow : (k : ℕ) → FailsBelow whole silence (dial_after k) (λ w. w) k
dial_after-FailsBelow k w h = dial_after_fails k w (ground arith)

dial_after-succeeds : (k v : ℕ) → v ≡ k → (dial_after k v).0 ≡ none
dial_after-succeeds k v h = ground arith

three_attempts-IsLimited : IsLimited whole silence (dial_after 5) 3 three_attempts
three_attempts-IsLimited = (refl, refl, omega arith, omega arith)

three_attempts_two-IsLimited : IsLimited whole silence (dial_after 2) 3 three_attempts
three_attempts_two-IsLimited = (refl, refl, omega arith, omega arith)

fails_three : FailsBelow whole silence (dial_after 5) (λ w. w) 3
fails_three w h = dial_after_fails 5 w (ground arith)

reconnect_loop-exhausts_example :
    (w' : ℕ) × (reconnect_loop whole silence (dial_after 5) 4 three_attempts 0
      ≡ some (none, record three_attempts { attempt = 3 }, w'))
    × (w' ≡ 3)
reconnect_loop-exhausts_example =
    reconnect_loop-exhausts whole silence (dial_after 5) (λ w. w) (dial_after-Counting 5) 3 4
      three_attempts 0 three_attempts-IsLimited refl fails_three refl (omega arith)

reconnect_loop-succeeds_example :
    (v : ℕ) × (reconnect_loop whole silence (dial_after 2) 3 three_attempts 0
      ≡ some (none, three_attempts, v))
    × (v ≡ 3)
reconnect_loop-succeeds_example =
    reconnect_loop-succeeds whole silence (dial_after 2) (λ w. w) (dial_after-Counting 2) 3 2 3
      three_attempts 0 three_attempts_two-IsLimited refl (dial_after-FailsBelow 2)
      (dial_after-succeeds 2) refl (omega arith) (omega arith)
