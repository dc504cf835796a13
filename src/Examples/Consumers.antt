-- ===== src/Examples/Consumers.antt =====
-- examples: the programs that acknowledge what they consume (consumer, qos, reconnect, pubsub-fanout,
-- workqueue-worker).
use eamqp.Base.{String, Bool, true, false, none, List, Result}
use eamqp.Base.Int.{ℤ, pos}
use eamqp.Text.{codes}
use eamqp.Amqp.Values.{Delivery}
use eamqp.Amqp.Raw.{Raw}
use eamqp.Channel.Topology
use eamqp.Channel.Messages
use eamqp.Consumer.{Acknowledger, Arrival}
use eamqp.Examples.Program.{
  Run, Host, ◌>>=◌, ◌>>◌, must, outside, declare_direct, for_each, with_channel,
}

module _ {S : Type 0} (raw : Raw S) (acks : Acknowledger S) (host : Host S) where
  -- Consume from a queue, and acknowledge each delivery, after some work.
  unfoldable pub acknowledge_all :
      String → String → (Delivery → S → S) → List Arrival → Run S (Unit {0})
  acknowledge_all queue tag work arrivals = do
    _ ← Messages.consume raw queue tag false false false false none
    for_each (λ d. outside (λ s. acks.ack d false (work d s))) arrivals

  abbrev no_work : Delivery → S → S
  no_work d s = s

  -- examples/consumer
  pub consumer_main : List Arrival → S → Result (Unit {0}) × S
  unfolding acknowledge_all
  consumer_main arrivals = with_channel raw host (codes "amqp.default") (λ client. do
    must (Messages.qos raw (pos 10) (pos 0) false)
    declare_direct raw "producer.example" "producer.example.queue" "test"
    acknowledge_all "producer.example.queue" "consumer-1" no_work arrivals)

  -- examples/qos, runConsumer: ten milliseconds of work for each message.
  pub run_qos_consumer : String → ℤ → ℤ → Bool → List Arrival → Run S (Unit {0})
  unfolding acknowledge_all
  run_qos_consumer name prefetch_count prefetch_size global arrivals = do
    must (Messages.qos raw prefetch_count prefetch_size global)
    acknowledge_all "qos.queue" name (λ d. host.sleep 10000000) arrivals

  -- examples/reconnect, runConsumer
  pub run_reconnect_consumer : List Arrival → Run S (Unit {0})
  unfolding acknowledge_all
  run_reconnect_consumer arrivals =
      acknowledge_all "reconnect.queue" "reconnect-consumer" no_work arrivals

  -- examples/pubsub-fanout, runSubscriber, on a queue of its own.
  pub run_subscriber : String → List Arrival → Run S (Unit {0})
  unfolding acknowledge_all
  run_subscriber tag arrivals = do
    q ← Topology.queue_declare raw "" false true true false none
    must (Topology.queue_bind raw q.name "" "pubsub-fanout.ex" false none)
    acknowledge_all q.name tag no_work arrivals

  -- examples/workqueue-worker; `work` is the random time that processTask waits, and the consumer's tag
  -- is random too.
  pub worker_main : String → (Delivery → S → S) → List Arrival → S → Result (Unit {0}) × S
  unfolding acknowledge_all
  worker_main tag work arrivals = with_channel raw host (codes "amqp.default") (λ client. do
    _ ← Topology.queue_declare raw "workqueue.tasks" true false false false none
    must (Messages.qos raw (pos 1) (pos 0) false)
    acknowledge_all "workqueue.tasks" tag work arrivals)
