-- ===== src/Examples/Batches/Complete.antt =====
-- examples/batch-producer and producer.go: publishing in batches against publishing one by one.
use mathlib.Core.List.{append-nil, append_assoc}
use eamqp.Base.{
  ◌≡◌, refl, ap, ◌∙◌, true, false, Option, none, List, [], ◌∷◌, ◌++◌, Error, String, arith,
  Bool-cases, inl, inr, ltb, length,
}
use eamqp.Amqp.Values.{Publishing}
use eamqp.Amqp.Raw.{Raw}
use eamqp.Producer.{Producer, Wait, publish}
use eamqp.Producer.Batch.{BatchProducer, add, should_flush, size, publish_each, flush}
use eamqp.Producer.Flush.{Published, publish_each-cons}
use eamqp.Examples.Batches.{dropped, add_and_flush, fill_batches, flush_rest, publish_in_batches}

module _ {S : Type 0} (raw : Raw S) (wait : Wait S) where
  publish_each-Published :
      (exchange key : String) (msgs : List Publishing) (a b : Producer S × S)
      → Published raw wait exchange key msgs a b
      → publish_each raw wait exchange key msgs a.0 a.1 ≡ (none, b.0, b.1)
  unfolding publish_each
  publish_each-Published exchange key [] a b h = ap (λ c. (none, c.0, c.1)) h
  publish_each-Published exchange key (m ∷ ms) a b h =
      let r = publish raw wait exchange key m a.0 a.1 in
      publish_each-cons raw wait exchange key m ms a.0 r.1 a.1 r.2 (ap (λ e. (e, r.1, r.2)) h.0)
      ∙ publish_each-Published exchange key ms (r.1, r.2) b h.1

  Published-append :
      (exchange key : String) (xs ys : List Publishing) (a b : Producer S × S)
      → Published raw wait exchange key (xs ++ ys) a b
      → (c : Producer S × S) × Published raw wait exchange key xs a c
        × Published raw wait exchange key ys c b
  Published-append exchange key [] ys a b h = (a, refl, h)
  Published-append exchange key (x ∷ xs) ys a b h =
      let r = publish raw wait exchange key x a.0 a.1 in
      let (c, before, after) = Published-append exchange key xs ys (r.1, r.2) b h.1 in
      (c, (h.0, before), after)

  -- The batch producer after all of its messages have been published.
  abbrev pub emptied : BatchProducer S → Producer S → BatchProducer S
  emptied bp p = record bp { producer = p; batch = [] }

  flush-Published :
      (bp : BatchProducer S) (s : S) (b : Producer S × S)
      → Published raw wait bp.exchange bp.routing_key bp.batch (bp.producer, s) b
      → flush raw wait bp s ≡ (none, emptied bp b.0, b.1)
  unfolding flush
  flush-Published bp s b h =
      ap (λ r. (r.0, emptied bp r.1, r.2))
        (publish_each-Published bp.exchange bp.routing_key bp.batch (bp.producer, s) b h)

  without_batch : (bp : BatchProducer S) → bp.batch ≡ [] → bp ≡ emptied bp bp.producer
  without_batch bp e = ap (λ l. record bp { batch = l }) e

  flush_rest-emptied :
      (bp : BatchProducer S) (p : Producer S) (s : S)
      → flush_rest raw wait (emptied bp p, s) ≡ (none, emptied bp p, s)
  unfolding flush_rest size
  flush_rest-emptied bp p s = refl

  flush_rest-full :
      (bp : BatchProducer S) (m : Publishing) (ms : List Publishing) (s : S)
      → bp.batch ≡ m ∷ ms
      → flush_rest raw wait (bp, s) ≡ flush raw wait bp s
  unfolding flush_rest size
  flush_rest-full bp m ms s e =
      let full : ltb 0 (length bp.batch) ≡ true = ground arith in simp full refl

  flush_rest-Published :
      (bp : BatchProducer S) (l : List Publishing) (s : S) (b : Producer S × S)
      → bp.batch ≡ l
      → Published raw wait bp.exchange bp.routing_key bp.batch (bp.producer, s) b
      → flush_rest raw wait (bp, s) ≡ (none, emptied bp b.0, b.1)
  flush_rest-Published bp [] s b e h =
      ap (λ q. flush_rest raw wait (q, s)) (without_batch bp e)
      ∙ flush_rest-emptied bp bp.producer s
      ∙ ap (λ c. (none, emptied bp c.0, c.1)) (rw e at h)
  flush_rest-Published bp (m ∷ ms) s b e h = flush_rest-full bp m ms s e ∙ flush-Published bp s b h

  fill_batches-cons :
      (m : Publishing) (ms : List Publishing) (bp : BatchProducer S) (s : S)
      (r : BatchProducer S × S)
      → add_and_flush raw wait m bp s ≡ r
      → fill_batches raw wait (m ∷ ms) bp s ≡ fill_batches raw wait ms r.0 r.1
  unfolding fill_batches
  fill_batches-cons m ms bp s r h = ap (λ x. fill_batches raw wait ms x.0 x.1) h

  add_and_flush-wait :
      (m : Publishing) (bp : BatchProducer S) (s : S)
      → should_flush (add m bp) ≡ false
      → add_and_flush raw wait m bp s ≡ (add m bp, s)
  unfolding add_and_flush
  add_and_flush-wait m bp s h = simp h refl

  add_and_flush-now :
      (m : Publishing) (bp : BatchProducer S) (s : S) (r : Option Error × BatchProducer S × S)
      → should_flush (add m bp) ≡ true
      → flush raw wait (add m bp) s ≡ r
      → add_and_flush raw wait m bp s ≡ (r.1, r.2)
  unfolding add_and_flush dropped
  add_and_flush-now m bp s r h e = simp h (ap (λ x. (x.1, x.2)) e)

  fill_batches-Published :
      (msgs : List Publishing) (bp : BatchProducer S) (s : S) (b : Producer S × S)
      → Published raw wait bp.exchange bp.routing_key (bp.batch ++ msgs) (bp.producer, s) b
      → flush_rest raw wait (fill_batches raw wait msgs bp s) ≡ (none, emptied bp b.0, b.1)
  unfolding fill_batches add
  fill_batches-Published [] bp s b h =
      flush_rest-Published bp bp.batch s b refl (rw append-nil at h)
  fill_batches-Published (m ∷ ms) bp s b h =
      let bp' = add m bp in
      let h' = rw (← append_assoc bp.batch (m ∷ []) ms) at h in
      let (c, before, after) =
        Published-append bp.exchange bp.routing_key bp'.batch ms (bp.producer, s) b h' in
      elim (Bool-cases (should_flush bp')) [
        | inr wait_on ↦
            ap (flush_rest raw wait)
              (fill_batches-cons m ms bp s (bp', s) (add_and_flush-wait m bp s wait_on))
            ∙ fill_batches-Published ms bp' s b h'
        | inl now ↦
            let flushed = flush-Published bp' s c before in
            ap (flush_rest raw wait) (
              fill_batches-cons m ms bp s (emptied bp' c.0, c.1)
                (add_and_flush-now m bp s (none, emptied bp' c.0, c.1) now flushed))
            ∙ fill_batches-Published ms (emptied bp' c.0) c.1 b after
      ]

  -- Publishing in batches, by Add, a Flush whenever ShouldFlush says so, and a last Flush of what is
  -- left, is publishing the messages one after the other: where each message of a list can be
  -- published in turn without an error, the batches return nil, and leave the producer and the world
  -- as publishing in turn leaves them, and the batch empty, whatever its size.
  pub publish_in_batches-Published :
      (msgs : List Publishing) (bp : BatchProducer S) (s : S) (b : Producer S × S)
      → bp.batch ≡ []
      → Published raw wait bp.exchange bp.routing_key msgs (bp.producer, s) b
      → publish_in_batches raw wait msgs bp s ≡ (none, emptied bp b.0, b.1)
  unfolding publish_in_batches
  publish_in_batches-Published msgs bp s b e h =
      fill_batches-Published msgs bp s b (rw (← ap (λ l. l ++ msgs) e) at h)
