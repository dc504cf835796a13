-- ===== src/Tests/ConsumerRuns.antt =====
-- Runs of a consumer's loop and of its retry loop.
use eamqp.Base.{
  ℕ, suc, ◌≡◌, refl, Bool, true, false, none, some, List, [], ◌∷◌, ◌++◌, ◌==◌, if◌then◌else◌, arith,
  pool_closed, ltb, Option, Error, Bool-cases, inl, inr, not,
}
use eamqp.Base.Int.{pos}
use eamqp.Amqp.Values.{Delivery}
use eamqp.Consumer.{Acknowledger, Handler, handle_all, handle_timed, retrying}
use eamqp.Consumer.Settling.{Books, is_error, deliver, verdicts, handle_all-settled}
use eamqp.Consumer.Timed.{TimedBooks, succeeds, outcomes, handle_timed-settled}
use eamqp.Consumer.Retries.{Counting, Tried, retrying-Tried}

abbrev ledger : Acknowledger (List (ℕ × Bool))
ledger = record {
  ack = λ d m s. s ++ (d.tag, true) ∷ [];
  nack = λ d m r s. s ++ (d.tag, false) ∷ [];
}

abbrev is_second : Delivery → Bool
is_second d = d.tag == 2

abbrev second_fails : Handler (List (ℕ × Bool))
second_fails d s = (if is_second d then some pool_closed else none, s)

abbrev message : ℕ → Delivery
message n = record { tag = n; headers = none; correlation_id = ""; reply_to = ""; body = [] }

second_fails-is_error :
    (d : Delivery) (s : List (ℕ × Bool)) → is_error (second_fails d s).0 ≡ is_second d
second_fails-is_error d s = ground arith

second_fails-Books : Books ledger second_fails (λ s. s) is_second
second_fails-Books = record {
  acked = λ d s. refl;
  nacked = λ d s. refl;
  handles = λ d s. refl;
  fails_on = second_fails-is_error;
}

handle_all-settled_example :
    let (r, s') =
      handle_all ledger false second_fails (deliver (message 1 ∷ message 2 ∷ message 3 ∷ [])) [] in
    (r ≡ some none) × (s' ≡ [] ++ verdicts is_second (message 1 ∷ message 2 ∷ message 3 ∷ []))
handle_all-settled_example =
    handle_all-settled ledger second_fails (λ s. s) is_second second_fails-Books
      (message 1 ∷ message 2 ∷ message 3 ∷ []) []

-- The handler of the second delivery does not end in time.
abbrev second_late : Delivery → List (ℕ × Bool) → Option (Option Error) × List (ℕ × Bool)
second_late d s = (if is_second d then none else some none, s)

second_late-succeeds :
    (d : Delivery) (s : List (ℕ × Bool)) → succeeds (second_late d s).0 ≡ not (is_second d)
second_late-succeeds d s = elim (Bool-cases (is_second d)) [ inl e ↦ rw e refl | inr e ↦ rw e refl ]

second_late-TimedBooks : TimedBooks ledger second_late (λ s. s) (λ d. not (is_second d))
second_late-TimedBooks = record {
  acked = λ d s. refl;
  nacked = λ d s. refl;
  handles = λ d s. refl;
  succeeds_on = second_late-succeeds;
}

handle_timed-settled_example :
    handle_timed ledger false second_late (message 1 ∷ message 2 ∷ message 3 ∷ []) []
    ≡ [] ++ outcomes (λ d. not (is_second d)) (message 1 ∷ message 2 ∷ message 3 ∷ [])
handle_timed-settled_example =
    handle_timed-settled ledger second_late (λ s. s) (λ d. not (is_second d)) second_late-TimedBooks
      (message 1 ∷ message 2 ∷ message 3 ∷ []) []

-- The handler fails at its first two calls.
abbrev third_time : Handler ℕ
third_time d s = (if ltb s 2 then some pool_closed else none, suc s)

third_time-Counting : Counting (λ delay s. s) third_time (λ s. s)
third_time-Counting = record { handles = λ d s. refl; sleeps = λ delay s. refl }

retrying-Tried_example :
    Tried
      (λ delay s. s)
      third_time
      (λ s. s)
      4
      0
      (retrying (λ delay s. s) (pos 3) (pos 1) third_time (message 1) 0)
retrying-Tried_example =
    retrying-Tried (λ delay s. s) third_time (λ s. s) third_time-Counting 3 (pos 1) (message 1) 0
