-- ===== src/Examples/Batches.antt =====
-- examples/batch-producer/main.go: messages published one by one, and in batches with Add, ShouldFlush
-- and Flush. The time that each way takes is not shown.
pub mod Complete
use eamqp.Base.{
  ℕ, zero, suc, ◌+◌, ◌-◌, Bool, Option, none, some, List, [], ◌∷◌, ◌++◌, Error, Result, ok, err,
  String, true, false, ltb, if◌then◌else◌,
}
use eamqp.Base.Int.{pos}
use eamqp.Text.{codes}
use eamqp.Amqp.Values.{Publishing}
use eamqp.Amqp.Raw.{Raw}
use eamqp.Channel.{Channel}
use eamqp.Channel.Topology
use eamqp.Observability.{digits}
use eamqp.Producer.{Wait, with_confirm}
use eamqp.Producer.Batch.{
  BatchProducer, add, should_flush, size, new_batch_producer, flush, close_batch,
}
use eamqp.Examples.Program.{
  Run, Host, ◌>>=◌, ◌>>◌, pure, attempt, declare_direct, json, try_publish, with_channel,
  channel_of,
}

-- fmt.Sprintf(`{"id": %d, "mode": …}`, i)
abbrev message : ℕ → List ℕ → Publishing
message i mode =
    json (codes "{\"id\": " ++ digits (suc i) i ++ codes ", \"mode\": \"" ++ mode ++ codes "\"}")

-- The messages from `i` on.
abbrev json_messages : List ℕ → ℕ → ℕ → List Publishing
json_messages mode i zero = []
json_messages mode i (suc left) = message i mode ∷ json_messages mode (suc i) left

module _ {S : Type 0} (raw : Raw S) (wait : Wait S) where
  -- A failed flush is only logged.
  unfoldable pub dropped : Option Error × BatchProducer S × S → BatchProducer S × S
  dropped (e, bp, s) = (bp, s)

  -- bp.Add(…); if bp.ShouldFlush() { bp.Flush() }
  unfoldable pub add_and_flush : Publishing → BatchProducer S → S → BatchProducer S × S
  unfolding dropped
  add_and_flush msg bp s =
      let bp' = add msg bp in if should_flush bp' then dropped (flush raw wait bp' s) else (bp', s)

  unfoldable pub fill_batches : List Publishing → BatchProducer S → S → BatchProducer S × S
  unfolding add_and_flush
  fill_batches [] bp s = (bp, s)
  fill_batches (msg ∷ msgs) bp s =
      let (bp', s') = add_and_flush msg bp s in fill_batches msgs bp' s'

  -- if bp.Size() > 0 { bp.Flush() }
  unfoldable pub flush_rest : BatchProducer S × S → Option Error × BatchProducer S × S
  flush_rest (bp, s) = if ltb 0 (size bp) then flush raw wait bp s else (none, bp, s)

  unfoldable pub publish_in_batches :
      List Publishing → BatchProducer S → S → Option Error × BatchProducer S × S
  unfolding fill_batches flush_rest
  publish_in_batches msgs bp s = flush_rest (fill_batches msgs bp s)

  publish_singly : List Publishing → Run S (Unit {0})
  publish_singly [] = pure tt
  publish_singly (msg ∷ msgs) =
      try_publish raw "batch.ex" "batch.test" msg >>= λ _. publish_singly msgs

  batches_closed :
      Channel S → Option Error × BatchProducer S × S → Result (Unit {0}) × Channel S × S
  batches_closed ch (e, bp, s) = (ok tt, channel_of ch bp.producer.channel, s)

  -- A failed final flush is fatal, and leaves out the deferred bp.Close().
  batches_ended : Channel S → Option Error × BatchProducer S × S → Result (Unit {0}) × Channel S × S
  unfolding batches_closed
  batches_ended ch (some e, bp, s) = (err e, channel_of ch bp.producer.channel, s)
  batches_ended ch (none, bp, s) = batches_closed ch (close_batch raw bp s)

  batches_started :
      List Publishing → Channel S → Result (BatchProducer S) × S → Result (Unit {0}) × Channel S × S
  unfolding batches_ended publish_in_batches
  batches_started msgs ch (err e, s) = (err e, ch, s)
  batches_started msgs ch (ok bp, s) = batches_ended ch (publish_in_batches msgs bp s)

  unfoldable pub batched : List Publishing → Run S (Unit {0})
  unfolding batches_started
  batched msgs ch s = batches_started msgs ch (
      new_batch_producer raw (some ch) "batch.ex" "batch.test" (pos 20)
        (with_confirm (pos 5000000000) ∷ []) s)

  purge : Run S (Unit {0})
  purge = do _ ← attempt (Topology.queue_purge raw "batch.queue" false); pure tt

  unfoldable pub main : Host S → S → Result (Unit {0}) × S
  unfolding publish_singly purge batched
  main host = with_channel raw host (codes "amqp.default") (λ client. do
    declare_direct raw "batch.ex" "batch.queue" "batch.test"
    purge
    publish_singly (json_messages (codes "unbatched") 0 200)
    purge
    batched (json_messages (codes "batched") 0 200))
