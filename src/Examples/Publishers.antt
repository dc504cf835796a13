-- ===== src/Examples/Publishers.antt =====
-- examples: the programs that publish (workqueue-publisher, reconnect, pubsub-fanout, qos, and
-- retry-consumer-sender). A publish that fails is logged, and the program goes on.
use eamqp.Base.{
  ℕ, zero, suc, String, true, false, none, List, [], ◌∷◌, ◌++◌, Result, unknown_role, if◌then◌else◌,
}
use eamqp.Text.{Text, codes}
use eamqp.Amqp.Raw.{Raw}
use eamqp.Base.Int.{pos}
use eamqp.Channel.Topology
use eamqp.Channel.Notify
use eamqp.Consumer.{Acknowledger, Arrival}
use eamqp.Container.{same_text}
use eamqp.Observability.{digits}
use eamqp.Examples.Consumers.{run_reconnect_consumer, run_subscriber, run_qos_consumer}
use eamqp.Examples.Program.{
  Run, Host, ◌>>=◌, ◌>>◌, pure, must, attempt, outside, declare_direct, json, try_publish,
  with_channel, with_role, stopped, count_queue,
}

abbrev decimal : ℕ → Text
decimal n = digits (suc n) n

module _ {S : Type 0} (raw : Raw S) (host : Host S) where
  -- One message for each tick until a signal comes: the i-th is made of i and the time.
  unfoldable pub publish_ticks : String → String → (ℕ → ℕ → Text) → ℕ → ℕ → Run S (Unit {0})
  publish_ticks exchange key body i zero = pure tt
  publish_ticks exchange key body i (suc left) = λ ch s.
      (try_publish raw exchange key (json (body (suc i) (host.unix s))) >>= λ _.
      publish_ticks exchange key body (suc i) left)
        ch s

  task : ℕ → ℕ → Text
  task i now =
      codes "{\"task_id\": "
      ++ decimal i
      ++ codes ", \"description\": \"process item #"
      ++ decimal i
      ++ codes "\", \"timestamp\": "
      ++ decimal now
      ++ codes "}"

  -- examples/workqueue-publisher
  pub publisher_main : ℕ → S → Result (Unit {0}) × S
  unfolding publish_ticks task
  publisher_main ticks = with_channel raw host (codes "amqp.default") (λ client. do
    _ ← Topology.queue_declare raw "workqueue.tasks" true false false false none
    publish_ticks "" "workqueue.tasks" task 0 ticks)

  numbered : ℕ → ℕ → Text
  numbered i now = codes "{\"seq\": " ++ decimal i ++ codes ", \"ts\": " ++ decimal now ++ codes "}"

  -- examples/reconnect, runProducer
  pub run_reconnect_producer : ℕ → Run S (Unit {0})
  unfolding publish_ticks numbered
  run_reconnect_producer ticks = publish_ticks "reconnect.ex" "reconnect.test" numbered 0 ticks

  notification : ℕ → ℕ → Text
  notification i now =
      codes "{\"event\": \"notification\", \"id\": "
      ++ decimal i
      ++ codes ", \"ts\": "
      ++ decimal now
      ++ codes "}"

  -- examples/pubsub-fanout, runPublisher
  pub run_fanout_publisher : ℕ → Run S (Unit {0})
  unfolding publish_ticks notification
  run_fanout_publisher ticks = publish_ticks "pubsub-fanout.ex" "" notification 0 ticks

  -- The loop of examples/qos's runPublisher, whose clock is in nanoseconds.
  publish_numbered : ℕ → ℕ → Run S (Unit {0})
  publish_numbered i zero = pure tt
  publish_numbered i (suc left) = λ ch s.
      (try_publish raw "qos.ex" "qos.test" (json (numbered i (host.unix_nano s))) >>= λ _.
      publish_numbered (suc i) left)
        ch s

  pub run_qos_publisher : Run S ℕ
  unfolding publish_numbered
  run_qos_publisher = do
    _ ← attempt (Topology.queue_purge raw "qos.queue" false)
    publish_numbered 0 100
    outside (host.sleep 500000000)
    attempt (count_queue raw "qos.queue")

  retry_orders : List Text
  retry_orders =
      codes "{\"order_id\": 1, \"type\": \"success\"}"
      ∷ codes "{\"order_id\": 2, \"type\": \"fail\"}"
      ∷ codes "{\"order_id\": 3, \"type\": \"success\"}"
      ∷ codes "{\"order_id\": 4, \"type\": \"fail\"}"
      ∷ codes "{\"order_id\": 5, \"type\": \"success\"}"
      ∷ []

  publish_orders : List Text → Run S (Unit {0})
  publish_orders [] = pure tt
  publish_orders (msg ∷ msgs) = do
    _ ← try_publish raw "retry.ex" "retry.test" (json msg)
    outside (host.sleep 200000000)
    publish_orders msgs

  -- examples/retry-consumer-sender
  pub sender_main : S → Result (Unit {0}) × S
  unfolding publish_orders
  sender_main = with_channel raw host (codes "amqp.default") (λ client. do
    must (Topology.exchange_declare raw "retry.ex" "direct" true false false false none)
    publish_orders retry_orders)

  module _ (acks : Acknowledger S) where
    -- examples/qos
    pub qos_main : List Text → List Arrival → S → Result (Unit {0}) × S
    qos_main args arrivals = with_role raw host args (codes "amqp.default") (λ role client. do
      declare_direct raw "qos.ex" "qos.queue" "qos.test"
      if same_text role (codes "high")
          then run_qos_consumer raw acks host "high-throughput" (pos 50) (pos 0) false arrivals
          else if same_text role (codes "fair")
          then run_qos_consumer raw acks host "fair" (pos 1) (pos 0) false arrivals
          else if same_text role (codes "publish")
          then (do _ ← run_qos_publisher; pure tt)
          else if same_text role (codes "inspect")
          then (do _ ← attempt (count_queue raw "qos.queue"); pure tt)
          else stopped (unknown_role role))

    -- examples/reconnect; its two monitors only print.
    pub reconnect_main : List Text → ℕ → List Arrival → S → Result (Unit {0}) × S
    reconnect_main args ticks arrivals =
        with_role raw host args (codes "amqp.reconnect") (λ role client. do
          declare_direct raw "reconnect.ex" "reconnect.queue" "reconnect.test"
          outside (host.notify_close client)
          _ ← attempt (Notify.notify_close raw)
          if same_text role (codes "producer")
              then run_reconnect_producer ticks
              else if same_text role (codes "consumer")
              then run_reconnect_consumer raw acks host arrivals
              else stopped (unknown_role role))

    -- examples/pubsub-fanout; any role but "publish" is a subscriber's name, `tag` as a consumer's tag.
    pub fanout_main : List Text → ℕ → String → List Arrival → S → Result (Unit {0}) × S
    fanout_main args ticks tag arrivals =
        with_role raw host args (codes "amqp.default") (λ role client. do
          must (
              Topology.exchange_declare raw "pubsub-fanout.ex" "fanout" true false false false none)
          if same_text role (codes "publish")
              then run_fanout_publisher ticks
              else run_subscriber raw acks host tag arrivals)
