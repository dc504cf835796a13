-- ===== src/Producer/Batch.antt =====
-- producer.go, type BatchProducer.
use eamqp.Base.{
  ℕ, String, Bool, Option, none, some, List, [], ◌∷◌, ◌++◌, Error, Result, ok, err, bad_max_size,
  length, if◌then◌else◌,
}
use eamqp.Base.Int.{ℤ, pos, leb_ℤ}
use eamqp.Amqp.Values.{Publishing}
use eamqp.Amqp.Raw.{Raw}
use eamqp.Channel.{Channel}
use eamqp.Producer.{Producer, Wait, new_producer, publish, close_producer}

pub record BatchProducer (S : Type 0) : Type 0 where
  pub producer : Producer S
  pub batch : List Publishing
  pub exchange : String
  pub routing_key : String
  pub max_size : ℤ

module _ {S : Type 0} where
  -- Never fails, whatever the size of the batch.
  unfoldable pub add : Publishing → BatchProducer S → BatchProducer S
  add msg bp = record bp { batch = bp.batch ++ msg ∷ [] }

  unfoldable pub should_flush : BatchProducer S → Bool
  should_flush bp = leb_ℤ bp.max_size (pos (length bp.batch))

  unfoldable pub size : BatchProducer S → ℕ
  size bp = length bp.batch

  -- if err != nil { return err }
  unfoldable pub unless_failed :
      Option Error × Producer S × S
      → (Producer S → S → Option Error × Producer S × S)
      → Option Error × Producer S × S
  unless_failed (some e, p, s) rest = (some e, p, s)
  unless_failed (none, p, s) rest = rest p s

module _ {S : Type 0} (raw : Raw S) where
  batched : String → String → ℤ → Result (Producer S) × S → Result (BatchProducer S) × S
  batched exchange key max_size (err e, s) = (err e, s)
  batched exchange key max_size (ok p, s) = (
    ok (record {
      producer = p;
      batch = [];
      exchange = exchange;
      routing_key = key;
      max_size = max_size;
    }),
    s,
  )

  pub new_batch_producer :
      Option (Channel S)
      → String
      → String
      → ℤ
      → List (Producer S → Producer S)
      → S
      → Result (BatchProducer S) × S
  unfolding batched
  new_batch_producer ch exchange key max_size opts s =
      let made = batched exchange key max_size (new_producer raw ch opts s) in
      if leb_ℤ max_size (pos 0) then (err bad_max_size, s) else made

  module _ (wait : Wait S) where
    -- The loop of Flush, which stops at the first error.
    unfoldable pub publish_each :
        String → String → List Publishing → Producer S → S → Option Error × Producer S × S
    unfolding unless_failed
    publish_each exchange key [] p s = (none, p, s)
    publish_each exchange key (msg ∷ msgs) p s =
        unless_failed (publish raw wait exchange key msg p s) (publish_each exchange key msgs)

    unfoldable pub flush : BatchProducer S → S → Option Error × BatchProducer S × S
    unfolding publish_each
    flush bp s =
        let (e, p, s') = publish_each bp.exchange bp.routing_key bp.batch bp.producer s in
        (e, record bp { producer = p; batch = [] }, s')

  pub close_batch : BatchProducer S → S → Option Error × BatchProducer S × S
  close_batch bp s =
      let (e, p, s') = close_producer raw bp.producer s in (e, record bp { producer = p }, s')
