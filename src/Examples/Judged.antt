-- ===== src/Examples/Judged.antt =====
-- examples/dead-letter and examples/retry-consumer-listener: how often, and how, their consumers settle
-- a delivery. The record of it stands beside the state of the channel.
use mathlib.Core.List.{append-nil, append_assoc}
use eamqp.Base.{
  ℕ, zero, suc, Option, some, Error, get_elem?, set, ◌≡◌, refl, sym, ap, ◌∙◌, none, List, [], ◌∷◌,
  ◌++◌, Result, ok, err, String, false, arith, Bool-cases, inl, inr, if◌then◌else◌,
}
use eamqp.Base.Int.{pos, leb_ℤ}
use eamqp.Text.{codes}
use eamqp.Amqp.Values.{Delivery, Publishing}
use eamqp.Amqp.Raw.{Raw}
use eamqp.Channel.{Channel}
use eamqp.Channel.Beside.{beside}
use eamqp.Channel.Beside.Untouched.{invoke-beside}
use eamqp.Channel.Calls.{invoke}
use eamqp.Channel.Calls.{publish as publish_call, consume as consume_call}
use eamqp.Consumer.{Acknowledger, Handler, settle}
use eamqp.Consumer.Workers.{Work, ready, handling, settling, works, run, happen, work, receive}
use eamqp.Consumer.Settling.{deliver}
use eamqp.Examples.Program.{Host, continued, outside, try_publish, for_each}
use eamqp.Examples.DeadLetter.{contains, judge, run_consumer}
use eamqp.Examples.RetryListener.{
  get_retry_count, try_again, handle, to_error, retry_listener, with_own,
}

pub data Verdict : Type 0 where
  acked requeued rejected : Verdict

abbrev pub Ledger : Type 0
Ledger = List (ℕ × Verdict)

-- Each acknowledgement is written down beside the state.
abbrev pub recorded : {W : Type 0} → Acknowledger W → Acknowledger (Ledger × W)
recorded acks = record {
  ack = λ d many s. (s.0 ++ (d.tag, acked) ∷ [], acks.ack d many s.1);
  nack = λ d many requeue s.
      (s.0 ++ (d.tag, if requeue then requeued else rejected) ∷ [], acks.nack d many requeue s.1);
}

-- The record of a handler's state.
abbrev pub ledger_of : {W : Type 0} → Channel (Ledger × W) × (Ledger × W) → Ledger
ledger_of (ch, s) = s.0

-- What the dead-letter consumer is to do: reject what says "die", acknowledge the rest.
abbrev pub judgements : List Delivery → Ledger
judgements [] = []
judgements (d ∷ ds) =
    (d.tag, if contains (codes "die") d.body then rejected else acked) ∷ judgements ds

-- What the retrying listener's handler is to do with a delivery.
abbrev pub retry_verdict : Delivery → Verdict
retry_verdict d =
    if contains (codes "die") d.body
    then rejected
    else if contains (codes "fail") d.body
    then if leb_ℤ (pos 3) (get_retry_count d.headers) then rejected else acked
    else acked

get_elem?-set_same {ℓ} :
    {A : Type ℓ} (xs : List A) (i : ℕ) (a b : A)
    → get_elem? xs i ≡ some a
    → get_elem? (set xs i b) i ≡ some b
get_elem?-set_same [] i a b h = ground arith
get_elem?-set_same (x ∷ xs) zero a b h = refl
get_elem?-set_same (x ∷ xs) (suc i) a b h = get_elem?-set_same xs i a b h

-- Three turns of a worker that is ready: it takes the next delivery, runs the handler and settles.
works-round :
    {S : Type 0} (raw : Raw S) (acks : Acknowledger S) (handler : Handler S) (tag : String) (i : ℕ)
    (d : Delivery) (rest : List Delivery) (t : Work S)
    → t.queue ≡ d ∷ rest
    → get_elem? t.workers i ≡ some ready
    → let t' = run raw acks handler tag (works i ∷ works i ∷ works i ∷ []) t in
      (t'.world ≡ settle acks t.consumer.opts.auto_ack d (handler d t.world))
      × (get_elem? t'.workers i ≡ some ready)
unfolding run happen work receive
works-round raw acks handler tag i d rest t queued idle =
    let ws = set t.workers i (handling d) in
    let taken = get_elem?-set_same t.workers i ready (handling d) idle in
    let vs = set ws i (settling d (handler d t.world).0) in
    let done = get_elem?-set_same ws i (handling d) (settling d (handler d t.world).0) taken in
    let back = get_elem?-set_same vs i (settling d (handler d t.world).0) ready done in
    rw (idle, queued, taken, done) (refl, back)

module _ {W : Type 0} (raw : Raw W) (acks : Acknowledger W) where
  -- A program's result that leaves this record.
  abbrev pub Leaves : Ledger → Result (Unit {0}) × Channel (Ledger × W) × (Ledger × W) → Type 0
  Leaves l (r, ch, s) = (r ≡ ok tt) × (s.0 ≡ l)

  judge-ledger :
      (d : Delivery) (s : Ledger × W)
      → (judge (recorded acks) d s).0
        ≡ s.0 ++ (d.tag, if contains (codes "die") d.body then rejected else acked) ∷ []
  unfolding judge
  judge-ledger d s = elim (Bool-cases (contains (codes "die") d.body)) [
    | inl dies ↦ rw dies refl
    | inr lives ↦ rw lives refl
  ]

  for_each-judgements :
      (ds : List Delivery) (ch : Channel (Ledger × W)) (s : Ledger × W)
      → Leaves
          (s.0 ++ judgements ds)
          (for_each (λ d. outside (judge (recorded acks) d)) (deliver ds) ch s)
  unfolding for_each
  for_each-judgements [] ch s = (refl, sym (append-nil s.0))
  for_each-judgements (d ∷ ds) ch s =
      let s₁ = judge (recorded acks) d s in
      let (r, rest) = for_each-judgements ds ch s₁ in
      let one = judge-ledger d s in
      (
        r,
        rest
            ∙ ap (λ l. l ++ judgements ds) one
            ∙ append_assoc s.0
                ((d.tag, if contains (codes "die") d.body then rejected else acked) ∷ [])
                (judgements ds),
      )

  try_publish-ledger :
      (exchange key : String) (msg : Publishing) (ch : Channel (Ledger × W)) (s : Ledger × W)
      → (try_publish (beside raw) exchange key msg ch s).2.0 ≡ s.0
  unfolding try_publish invoke
  try_publish-ledger exchange key msg ch s =
      invoke-beside raw (publish_call exchange key false false msg) ch s

  -- If the consumer could not be started, nothing is settled.
  abbrev pub IsJudged :
      List Delivery → Ledger → Result (Unit {0}) × Channel (Ledger × W) × (Ledger × W) → Type 0
  IsJudged ds l (ok u, ch, s) = s.0 ≡ l ++ judgements ds
  IsJudged ds l (err e, ch, s) = s.0 ≡ l

  Leaves-IsJudged :
      (ds : List Delivery) (l : Ledger)
      (r : Result (Unit {0}) × Channel (Ledger × W) × (Ledger × W))
      → Leaves (l ++ judgements ds) r
      → IsJudged ds l r
  Leaves-IsJudged ds l (ok u, ch, s) h = h.1
  Leaves-IsJudged ds l (err e, ch, s) h = absurd (ground arith)

  consumed-IsJudged :
      (ds : List Delivery) (l : Ledger) (r : Result ℕ × Channel (Ledger × W) × (Ledger × W))
      → r.2.0 ≡ l
      → IsJudged ds l
          (continued r (λ _. for_each (λ d. outside (judge (recorded acks) d)) (deliver ds)))
  consumed-IsJudged ds l (err e, ch, s) h = h
  consumed-IsJudged ds l (ok n, ch, s) h =
      Leaves-IsJudged ds l _ (rw (← h) (for_each-judgements ds ch s))

  -- The dead-letter consumer settles each delivery exactly once, in the order of arrival: it rejects
  -- without requeue a message that says "die", so that it goes to the dead-letter queue, and
  -- acknowledges any other. If its consumer could not be started, it settles nothing.
  pub run_consumer-IsJudged :
      (host : Host (Ledger × W)) (ds : List Delivery) (ch : Channel (Ledger × W)) (s : Ledger × W)
      → IsJudged ds s.0 (run_consumer (beside raw) (recorded acks) host (deliver ds) ch s)
  unfolding run_consumer invoke
  run_consumer-IsJudged host ds ch s =
      consumed-IsJudged ds s.0 _
        (invoke-beside raw (consume_call "dl.main" "dl-consumer" false false false false none) ch s)

  try_again-ledger :
      (d : Delivery) (ch : Channel (Ledger × W)) (s : Ledger × W)
      → Leaves (s.0 ++ (d.tag, acked) ∷ []) (try_again (beside raw) (recorded acks) d ch s)
  unfolding try_again try_publish
  try_again-ledger d ch s =
      (refl, unfold try_publish in try_publish-ledger "retry.ex" "retry.test" _ ch _)

  handle-ledger :
      (d : Delivery) (ch : Channel (Ledger × W)) (s : Ledger × W)
      → Leaves (s.0 ++ (d.tag, retry_verdict d) ∷ []) (handle (beside raw) (recorded acks) d ch s)
  unfolding handle
  handle-ledger d ch s = elim (Bool-cases (contains (codes "die") d.body)) [
    | inl dies ↦ simp dies (refl, refl)
    | inr lives ↦ elim (Bool-cases (contains (codes "fail") d.body)) [
      | inr fine ↦ simp (lives, fine) (refl, refl)
      | inl fails ↦ elim (Bool-cases (leb_ℤ (pos 3) (get_retry_count d.headers))) [
        | inl over ↦ simp (lives, fails, over) (refl, refl)
        | inr left ↦ simp (lives, fails, left) (try_again-ledger d ch s)
      ]
    ]
  ]

  to_error-ledger :
      (l : Ledger) (r : Result (Unit {0}) × Channel (Ledger × W) × (Ledger × W))
      → Leaves l r
      → ((to_error (beside raw) (recorded acks) r).0 ≡ none)
        × (ledger_of (to_error (beside raw) (recorded acks) r).1 ≡ l)
  unfolding to_error
  to_error-ledger l (ok u, ch, s) h = (refl, h.1)
  to_error-ledger l (err e, ch, s) h = absurd (ground arith)

  retry_listener-ledger :
      (d : Delivery) (t : Channel (Ledger × W) × (Ledger × W))
      → ((retry_listener (beside raw) (recorded acks) d t).0 ≡ none)
        × (ledger_of (retry_listener (beside raw) (recorded acks) d t).1
            ≡ ledger_of t ++ (d.tag, retry_verdict d) ∷ [])
  unfolding retry_listener
  retry_listener-ledger d (ch, s) = to_error-ledger _ _ (handle-ledger d ch s)

  settled_again :
      (d : Delivery) (l : Ledger) (r : Option Error × (Channel (Ledger × W) × (Ledger × W)))
      → (r.0 ≡ none) × (ledger_of r.1 ≡ l)
      → ledger_of (settle (with_own (beside raw) (recorded acks)) false d r)
        ≡ l ++ (d.tag, acked) ∷ []
  unfolding settle
  settled_again d l (none, t) h = ap (λ m. m ++ (d.tag, acked) ∷ []) h.1
  settled_again d l (some e, t) h = absurd (ground arith)

  -- With manual acknowledgement, a worker of ConsumeWithWorkers with the retrying listener's handler
  -- that takes the next delivery, runs the handler and settles, settles the delivery twice: the handler
  -- rejects or acknowledges it, and since it returns nil the worker acknowledges it again.
  pub run-twice :
      (channel : Raw (Channel (Ledger × W) × (Ledger × W))) (tag : String) (i : ℕ) (d : Delivery)
      (rest : List Delivery) (t : Work (Channel (Ledger × W) × (Ledger × W)))
      → t.queue ≡ d ∷ rest
      → get_elem? t.workers i ≡ some ready
      → t.consumer.opts.auto_ack ≡ false
      → let t' =
          run channel
            (with_own (beside raw) (recorded acks))
            (retry_listener (beside raw) (recorded acks))
            tag
            (works i ∷ works i ∷ works i ∷ [])
            t in
        (ledger_of t'.world ≡ ledger_of t.world ++ (d.tag, retry_verdict d) ∷ (d.tag, acked) ∷ [])
        × (get_elem? t'.workers i ≡ some ready)
  run-twice channel tag i d rest t queued idle manual =
      let own = with_own (beside raw) (recorded acks) in
      let handler = retry_listener (beside raw) (recorded acks) in
      let round = works-round channel own handler tag i d rest t queued idle in
      let twice = settled_again d _ (handler d t.world) (retry_listener-ledger d t.world) in
      (
        ap ledger_of round.0
            ∙ ap (λ b. ledger_of (settle own b d (handler d t.world))) manual
            ∙ twice
            ∙ append_assoc (ledger_of t.world) ((d.tag, retry_verdict d) ∷ [])
                ((d.tag, acked) ∷ []),
        round.1,
      )
