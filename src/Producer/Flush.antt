-- ===== src/Producer/Flush.antt =====
-- producer.go, BatchProducer.Flush: which of the batched messages are published.
use eamqp.Base.{
  ◌≡◌, refl, ap, String, Option, none, some, List, [], ◌∷◌, ◌++◌, ◌⊎◌, inl, inr, Error,
}
use eamqp.Amqp.Values.{Publishing}
use eamqp.Amqp.Raw.{Raw}
use eamqp.Producer.{Producer, Wait, publish}
use eamqp.Producer.Batch.{BatchProducer, publish_each, flush}

module _ {S : Type 0} (raw : Raw S) (wait : Wait S) where
  -- The messages are published one after the other without an error, from the first state to the
  -- second.
  abbrev pub Published :
      String → String → List Publishing → Producer S × S → Producer S × S → Type 0
  Published exchange key [] a b = a ≡ b
  Published exchange key (m ∷ ms) a b =
      let r = publish raw wait exchange key m a.0 a.1 in
      (r.0 ≡ none) × Published exchange key ms (r.1, r.2) b

  -- What Flush has done: everything is published; or the messages before the first that fails are,
  -- and its error is returned.
  abbrev pub Flushed :
      String → String → List Publishing → Producer S × S → Option Error × Producer S × S → Type 0
  Flushed exchange key batch a r =
      ((r.0 ≡ none) × Published exchange key batch a (r.1, r.2))
      ⊎ ((sent : List Publishing) × (failing : Publishing) × (lost : List Publishing)
          × (b : Producer S × S) × (e : Error) × (batch ≡ sent ++ failing ∷ lost)
          × Published exchange key sent a b
          × (publish raw wait exchange key failing b.0 b.1 ≡ (some e, r.1, r.2))
          × (r.0 ≡ some e))

  extend :
      (exchange key : String) (m : Publishing) (ms : List Publishing) (a : Producer S × S)
      (p : Producer S) (s : S) (r : Option Error × Producer S × S)
      → publish raw wait exchange key m a.0 a.1 ≡ (none, p, s)
      → Flushed exchange key ms (p, s) r
      → Flushed exchange key (m ∷ ms) a r
  extend exchange key m ms a p s r h (inl (n, all)) = inl (n, rw h (refl, all))
  extend exchange key m ms a p s r h (inr (sent, f, lost, b, e, eq, all, fails, n)) =
      inr (m ∷ sent, f, lost, b, e, ap (λ l. m ∷ l) eq, rw h (refl, all), fails, n)

  pub publish_each-cons :
      (exchange key : String) (m : Publishing) (ms : List Publishing) (p p' : Producer S) (s s' : S)
      → publish raw wait exchange key m p s ≡ (none, p', s')
      → publish_each raw wait exchange key (m ∷ ms) p s
        ≡ publish_each raw wait exchange key ms p' s'
  unfolding publish_each
  publish_each-cons exchange key m ms p p' s s' h = rw h refl

  publish_each-stop :
      (exchange key : String) (m : Publishing) (ms : List Publishing) (p p' : Producer S) (s s' : S)
      (e : Error)
      → publish raw wait exchange key m p s ≡ (some e, p', s')
      → publish_each raw wait exchange key (m ∷ ms) p s ≡ (some e, p', s')
  unfolding publish_each
  publish_each-stop exchange key m ms p p' s s' e h = rw h refl

  next-Flushed :
      (exchange key : String) (m : Publishing) (ms : List Publishing) (p : Producer S) (s : S)
      (q : Option Error × Producer S × S)
      → publish raw wait exchange key m p s ≡ q
      → Flushed exchange key ms (q.1, q.2) (publish_each raw wait exchange key ms q.1 q.2)
      → Flushed exchange key (m ∷ ms) (p, s) (publish_each raw wait exchange key (m ∷ ms) p s)
  next-Flushed exchange key m ms p s (none, p', s') h f =
      let e = extend exchange key m ms (p, s) p' s' _ h f in
      rw (publish_each-cons exchange key m ms p p' s s' h) e
  next-Flushed exchange key m ms p s (some x, p', s') h f =
      rw (publish_each-stop exchange key m ms p p' s s' x h)
        (inr ([], m, ms, (p, s), x, refl, refl, h, refl))

  each-Flushed :
      (exchange key : String) (ms : List Publishing) (p : Producer S) (s : S)
      → Flushed exchange key ms (p, s) (publish_each raw wait exchange key ms p s)
  unfolding publish_each
  each-Flushed exchange key [] p s = inl (refl, refl)
  each-Flushed exchange key (m ∷ ms) p s =
      let q = publish raw wait exchange key m p s in
      next-Flushed exchange key m ms p s q refl (each-Flushed exchange key ms q.1 q.2)

  -- Flush publishes the batched messages in their order, up to the first that fails. It returns nil
  -- exactly in the case that all are published, and the failing one's error otherwise. In both cases
  -- the batch is empty afterwards, so the messages that follow a failing one are gone.
  pub flush-Flushed :
      (bp : BatchProducer S) (s : S)
      → let (e, bp', s') = flush raw wait bp s in
        Flushed bp.exchange bp.routing_key bp.batch (bp.producer, s) (e, bp'.producer, s')
        × (bp'.batch ≡ [])
  unfolding flush
  flush-Flushed bp s = (each-Flushed bp.exchange bp.routing_key bp.batch bp.producer s, refl)
