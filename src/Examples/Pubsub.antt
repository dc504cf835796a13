-- ===== src/Examples/Pubsub.antt =====
-- examples/pubsub/main.go: one goroutine acknowledges while another publishes, in any order.
use eamqp.Base.{suc, true, false, none, List, [], ◌∷◌, ◌++◌, Result}
use eamqp.Text.{codes}
use eamqp.Amqp.Values.{Delivery}
use eamqp.Amqp.Raw.{Raw}
use eamqp.Channel.Topology
use eamqp.Channel.Messages
use eamqp.Consumer.{Acknowledger}
use eamqp.Observability.{digits}
use eamqp.Examples.Program.{
  Run, Host, ◌>>=◌, ◌>>◌, pure, must, outside, json, try_publish, with_channel,
}

-- What happens next: a delivery arrives, the ticker ticks, or a signal comes.
pub data Happening : Type 0 where
  arrives : Delivery → Happening
  ticks : Happening
  signalled : Happening

module _ {S : Type 0} (raw : Raw S) (acks : Acknowledger S) (host : Host S) where
  tick : Run S (Unit {0})
  tick ch s =
      (try_publish raw "events" "order.created" (
            json (
              codes "{\"order_id\": "
              ++ digits (suc (host.unix s)) (host.unix s)
              ++ codes ", \"amount\": 99.99}"))
          >>= λ e. pure tt)
        ch s

  -- Up to the signal.
  unfoldable pub go_on : List Happening → Run S (Unit {0})
  unfolding tick
  go_on [] = pure tt
  go_on (arrives d ∷ rest) = outside (acks.ack d false) >> go_on rest
  go_on (ticks ∷ rest) = tick >> go_on rest
  go_on (signalled ∷ rest) = pure tt

  unfoldable pub pubsub_main : List Happening → S → Result (Unit {0}) × S
  unfolding go_on
  pubsub_main happenings = with_channel raw host (codes "amqp.default") (λ client. do
    must (Topology.exchange_declare raw "events" "topic" true false false false none)
    q ← Topology.queue_declare raw "my-queue" true false false false none
    must (Topology.queue_bind raw "my-queue" "order.created" "events" false none)
    _ ← Messages.consume raw q.name "consumer-1" false false false false none
    go_on happenings)
