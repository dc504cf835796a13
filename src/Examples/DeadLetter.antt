-- ===== src/Examples/DeadLetter.antt =====
-- examples/dead-letter/main.go: the topology with a dead-letter exchange, and what becomes of a message.
use eamqp.Base.{
  ℕ, Bool, true, false, Option, none, some, List, [], ◌∷◌, Result, err, unknown_role, if◌then◌else◌,
}
use eamqp.Text.{Text, codes, index}
use eamqp.Amqp.Values.{text, Delivery}
use eamqp.Amqp.Raw.{Raw}
use eamqp.Channel.Topology
use eamqp.Channel.Messages
use eamqp.Consumer.{Acknowledger, Arrival}
use eamqp.Container.{same_text}
use eamqp.Examples.Program.{
  Run, Host, ◌>>=◌, ◌>>◌, pure, must, attempt, outside, json, try_publish, count_queue, for_each,
  with_role,
}

was_found : Option ℕ → Bool
was_found none = false
was_found (some i) = true

-- strings.Contains
unfoldable pub contains : Text → Text → Bool
unfolding was_found
contains pat body = was_found (index pat body)

-- A message that says "die" is rejected without requeue, any other is acknowledged.
unfoldable pub judge : {S : Type 0} → Acknowledger S → Delivery → S → S
judge acks d s =
    if contains (codes "die") d.body then acks.nack d false false s else acks.ack d false s

module _ {S : Type 0} (raw : Raw S) (acks : Acknowledger S) (host : Host S) where
  unfoldable pub setup_topology : Run S (Unit {0})
  setup_topology = do
    must (Topology.exchange_declare raw "dl.ex" "direct" true false false false none)
    must (Topology.exchange_declare raw "dlx.ex" "direct" true false false false none)
    _ ← Topology.queue_declare raw "dl.dead" true false false false none
    must (Topology.queue_bind raw "dl.dead" "dl.dead" "dlx.ex" false none)
    _ ← Topology.queue_declare raw "dl.main" true false false false (
        some (
          ("x-dead-letter-exchange", text "dlx.ex")
          ∷ ("x-dead-letter-routing-key", text "dl.dead")
          ∷ []))
    must (Topology.queue_bind raw "dl.main" "dl.test" "dl.ex" false none)

  unfoldable pub run_consumer : List Arrival → Run S (Unit {0})
  unfolding judge
  run_consumer arrivals = do
    _ ← Messages.consume raw "dl.main" "dl-consumer" false false false false none
    for_each (λ d. outside (judge acks d)) arrivals

  send_each : List Text → Run S (Unit {0})
  send_each [] = pure tt
  send_each (msg ∷ msgs) = do
    _ ← try_publish raw "dl.ex" "dl.test" (json msg)
    outside (host.sleep 200000000)
    send_each msgs

  -- The five messages of runPublisher, each by its status.
  abbrev orders : List Text
  orders =
      codes "{\"order_id\": 1, \"status\": \"success\"}"
      ∷ codes "{\"order_id\": 2, \"status\": \"die-now\"}"
      ∷ codes "{\"order_id\": 3, \"status\": \"success\"}"
      ∷ codes "{\"order_id\": 4, \"status\": \"die-now\"}"
      ∷ codes "{\"order_id\": 5, \"status\": \"success\"}"
      ∷ []

  unfoldable pub run_publisher : Run S (ℕ × ℕ)
  unfolding send_each
  run_publisher = do
    send_each orders
    outside (host.sleep 2000000000)
    in_main ← attempt (count_queue raw "dl.main")
    in_dead ← attempt (count_queue raw "dl.dead")
    pure (in_main, in_dead)

  -- Each message is acknowledged; the loop ends with the deliveries or after five seconds without one.
  unfoldable pub inspect_dlq : List Arrival → Run S (Unit {0})
  inspect_dlq arrivals = do
    _ ← Messages.consume raw "dl.dead" "dlq-inspect" false false false false none
    for_each (λ d. outside (acks.ack d false)) arrivals

  role_of : List Arrival → Text → Run S (Unit {0})
  unfolding run_consumer run_publisher inspect_dlq
  role_of arrivals role =
      if same_text role (codes "consumer")
      then run_consumer arrivals
      else if same_text role (codes "publisher")
      then (do _ ← run_publisher; pure tt)
      else if same_text role (codes "inspect-dlq")
      then inspect_dlq arrivals
      else (λ ch s. (err (unknown_role role), ch, s))

  unfoldable pub main : List Text → List Arrival → S → Result (Unit {0}) × S
  unfolding role_of setup_topology
  main args arrivals =
      with_role raw host args (codes "amqp.default")
        (λ role client. setup_topology >> role_of arrivals role)
