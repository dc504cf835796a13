-- ===== src/Examples/Transaction/Drained.antt =====
-- examples/transaction, countQueue: how much fuel is enough.
use eamqp.Base.{
  ℕ, zero, suc, ◌<◌, ◌≡◌, refl, String, Bool, true, false, Option, none, some, Result, ok, err,
  arith,
}
use eamqp.Amqp.Values.{Delivery}
use eamqp.Amqp.Raw.{Raw}
use eamqp.Channel.{Channel}
use eamqp.Channel.Messages
use eamqp.Examples.Transaction.{count_on, count_messages}

abbrev finds_nothing : Result (Option Delivery) → Bool
finds_nothing (err e) = true
finds_nothing (ok none) = true
finds_nothing (ok (some d)) = false

module _ {S : Type 0} (raw : Raw S) where
  -- `k` messages can be got from the queue, and then none.
  abbrev pub Drains : ℕ → String → Channel S → S → Type 0
  Drains zero name ch s = finds_nothing (Messages.get raw name false ch s).0 ≡ true
  Drains (suc k) name ch s =
      let (r, ch', s') = Messages.get raw name false ch s in
      (finds_nothing r ≡ false) × Drains k name ch' s'

  count_on-nothing :
      (again : Channel S → S → Option ℕ × Channel S × S)
      (r : Result (Option Delivery) × Channel S × S)
      → finds_nothing r.0 ≡ true
      → (count_on raw again r).0 ≡ some 0
  unfolding count_on
  count_on-nothing again (err e, ch, s) h = refl
  count_on-nothing again (ok none, ch, s) h = refl
  count_on-nothing again (ok (some d), ch, s) h = absurd (ground arith)

  count_on-something :
      (again : Channel S → S → Option ℕ × Channel S × S)
      (r : Result (Option Delivery) × Channel S × S) (k : ℕ)
      → finds_nothing r.0 ≡ false
      → (again r.1 r.2).0 ≡ some k
      → (count_on raw again r).0 ≡ some (suc k)
  unfolding count_on
  count_on-something again (err e, ch, s) k h a = absurd (ground arith)
  count_on-something again (ok none, ch, s) k h a = absurd (ground arith)
  count_on-something again (ok (some d), ch, s) k h a = rw a refl

  -- countQueue on a queue from which k messages can be got returns k, with more than k units of fuel.
  pub count_messages-Drains :
      (fuel k : ℕ) (name : String) (ch : Channel S) (s : S)
      → Drains k name ch s
      → k < fuel
      → (count_messages raw fuel name ch s).0 ≡ some k
  unfolding count_messages
  count_messages-Drains zero k name ch s d l = absurd (omega arith)
  count_messages-Drains (suc fuel) zero name ch s d l = count_on-nothing _ _ d
  count_messages-Drains (suc fuel) (suc k) name ch s d l =
      count_on-something _ _ k d.0 (count_messages-Drains fuel k name _ _ d.1 (omega arith))
