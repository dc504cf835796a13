-- ===== src/Consumer/Workers/Once.antt =====
-- consumer.go, ConsumeWithWorkers: Ack or Nack is called once for each delivery. `settled` is the record
-- of these calls.
use eamqp.Base.{
  ℕ, suc, zero, ◌+◌, ◌≤◌, ◌<◌, ◌≡◌, ◌≢◌, refl, ap, sym, ◌∙◌, inl, inr, String, Bool, false, not,
  Option, some, List, [], ◌∷◌, Error, Result, ok, err, workers_timeout, arith, sum_by,
  length-replicate, sum_by-replicate,
}
use eamqp.Base.Int.{ℤ, pos, negsuc}
use eamqp.Amqp.Values.{Delivery}
use eamqp.Amqp.Raw.{Raw}
use eamqp.Channel.Messages
use eamqp.Channel.Quiet.{Quiet, IsQuiet, perform-IsQuiet}
use eamqp.Consumer.{Acknowledger, Handler, Consumer, consume}
use eamqp.Consumer.Settling.{Books, verdicts}
use eamqp.Consumer.Workers.{
  ready, returned, Work, Event, worker_count, begin_work, consume_with_workers,
}
use eamqp.Consumer.Workers.Measures.{stops, load, owed, load-stops}
use eamqp.Consumer.Workers.Totals.{Counted, run-Counted}

pub worker_count-positive : (n : ℤ) → 0 < worker_count n
worker_count-positive (pos zero) = omega arith
worker_count-positive (pos (suc n)) = omega arith
worker_count-positive (negsuc n) = omega arith

module _ {S : Type 0} (raw : Raw S) (acks : Acknowledger S) (handler : Handler S) (tag : String)
    (settled : S → List (ℕ × Bool)) (fails : Delivery → Bool)
    (books : Books acks handler settled fails) (quiet : Quiet raw settled) (f : ℕ × Bool → ℕ) where
  owed-verdicts : (ds : List Delivery) → sum_by (owed fails f) ds ≡ sum_by f (verdicts fails ds)
  owed-verdicts [] = refl
  owed-verdicts (d ∷ ds) = ap (λ k. f (d.tag, not (fails d)) + k) (owed-verdicts ds)

  consume-manual : (c : Consumer S) (s : S) → (consume raw tag c s).1.opts ≡ c.opts
  unfolding consume
  consume-manual c s = refl

  consume-calm :
      (c : Consumer S) (s : S)
      → IsQuiet raw settled c.channel
      → IsQuiet raw settled (consume raw tag c s).1.channel
  unfolding consume Messages.consume
  consume-calm c s q = perform-IsQuiet raw settled _ _ _ c.channel s q

  begin_work-Counted :
      (n : ℤ) (c : Consumer S) (s : S) (q : ℕ)
      → c.opts.auto_ack ≡ false
      → IsQuiet raw settled c.channel
      → Counted raw acks handler tag settled fails books quiet f
          (sum_by f (settled s))
          (worker_count n)
          (begin_work n (ok q, c, s))
  unfolding begin_work
  begin_work-Counted n c s q manual calm =
      let k = worker_count n in
      let none_stopped = sum_by-replicate stops k ready refl in
      record {
        total = omega (arith, sum_by-replicate (load fails f) k ready refl);
        manual = manual;
        calm = calm;
        dry = λ h. absurd (omega (arith, none_stopped));
        size = length-replicate k ready;
        joined = λ e h. ground arith;
      }

  begun-Counted :
      (n : ℤ) (r : Result ℕ × Consumer S × S) (q : ℕ)
      → r.0 ≡ ok q
      → r.1.opts.auto_ack ≡ false
      → IsQuiet raw settled r.1.channel
      → Counted raw acks handler tag settled fails books quiet f
          (sum_by f (settled r.2))
          (worker_count n)
          (begin_work n r)
  begun-Counted n (ok p, c, s) q e manual calm = begin_work-Counted n c s p manual calm
  begun-Counted n (err x, c, s) q e manual calm = ground arith

  consumed-Counted :
      (n : ℤ) (es : List Event) (c : Consumer S) (s : S) (q : ℕ)
      → (consume raw tag c s).0 ≡ ok q
      → c.opts.auto_ack ≡ false
      → IsQuiet raw settled c.channel
      → Counted raw acks handler tag settled fails books quiet f
          (sum_by f (settled (consume raw tag c s).2))
          (worker_count n)
          (consume_with_workers raw acks handler tag n es c s)
  unfolding consume_with_workers
  consumed-Counted n es c s q e manual calm =
      let r = consume raw tag c s in
      run-Counted raw acks handler tag settled fails books quiet f (sum_by f (settled r.2))
        (worker_count n) es (begin_work n r)
        (begun-Counted n r q e (ap (λ o. o.auto_ack) (consume-manual c s) ∙ manual)
          (consume-calm c s calm))

  -- With manual acknowledgement, whatever the interleaving of the workers, the arrivals and the
  -- caller, and at any moment of it: no delivery has been settled more often than it has arrived,
  -- neither by an ack where its handler fails nor by a nack where it succeeds. (`f` is any count of
  -- what is settled. The calls to cancel and to close the channel settle nothing.)
  pub settled_at_most_once :
      (n : ℤ) (es : List Event) (c : Consumer S) (s : S) (q : ℕ)
      → (consume raw tag c s).0 ≡ ok q
      → c.opts.auto_ack ≡ false
      → IsQuiet raw settled c.channel
      → let t = consume_with_workers raw acks handler tag n es c s in
        sum_by f (settled t.world)
        ≤ sum_by f (settled (consume raw tag c s).2) + sum_by f (verdicts fails t.arrived)
  settled_at_most_once n es c s q e manual calm =
      let t = consume_with_workers raw acks handler tag n es c s in
      omega (arith, (consumed-Counted n es c s q e manual calm).total, owed-verdicts t.arrived)

  all_settled :
      (base k : ℕ) (t : Work S) (x : Option Error)
      → 0 < k
      → Counted raw acks handler tag settled fails books quiet f base k t
      → t.caller ≡ returned x
      → x ≢ some workers_timeout
      → sum_by f (settled t.world) ≡ base + sum_by f (verdicts fails t.arrived)
  all_settled base k t x h c back intime = elim (c.joined x back) [
    | inl late ↦ absurd (intime late)
    | inr all ↦
        let empty = (c.dry (omega (arith, all, h))).0 in
        let idle = load-stops fails f t.workers (all ∙ sym c.size) in
        omega (arith, c.total, idle, owed-verdicts t.arrived, ap (sum_by (owed fails f)) empty)
  ]

  -- With manual acknowledgement, whatever the interleaving: where ConsumeWithWorkers has started its
  -- consumer and returns without the timeout of the shutdown, Ack or Nack has been called exactly once
  -- for each delivery that has arrived: Ack if its handler succeeded, and Nack with requeue if it failed.
  -- (`f` is any count of these calls, whatever becomes of them: a call that a worker makes after the
  -- channel has been closed fails, and its error is dropped. Nothing else makes such a call.)
  pub settled_exactly_once :
      (n : ℤ) (es : List Event) (c : Consumer S) (s : S) (q : ℕ) (x : Option Error)
      → (consume raw tag c s).0 ≡ ok q
      → c.opts.auto_ack ≡ false
      → IsQuiet raw settled c.channel
      → (consume_with_workers raw acks handler tag n es c s).caller ≡ returned x
      → x ≢ some workers_timeout
      → let t = consume_with_workers raw acks handler tag n es c s in
        sum_by f (settled t.world)
        ≡ sum_by f (settled (consume raw tag c s).2) + sum_by f (verdicts fails t.arrived)
  settled_exactly_once n es c s q x e manual calm back intime =
      all_settled (sum_by f (settled (consume raw tag c s).2)) (worker_count n)
        (consume_with_workers raw acks handler tag n es c s) x (worker_count-positive n)
        (consumed-Counted n es c s q e manual calm) back intime
