-- ===== src/Examples/Confirms.antt =====
-- examples/producer and examples/producer-confirm: publishing with confirms. What waits for a
-- confirmation only prints it, so that `wait` changes the world alone.
use eamqp.Base.{ℕ, zero, suc, false, Option, none, some, [], ◌∷◌, ◌++◌, Error, Result, ok, err}
use eamqp.Base.Int.{pos}
use eamqp.Text.{Text, codes}
use eamqp.Amqp.Values.{Publishing}
use eamqp.Amqp.Raw.{Raw}
use eamqp.Channel.{Channel}
use eamqp.Channel.Messages
use eamqp.Channel.Notify
use eamqp.Observability.{digits}
use eamqp.Producer.{
  Producer, Wait, with_confirm, new_producer, publish, publish_async, close_producer,
}
use eamqp.Examples.Program.{
  Run, Host, ◌>>=◌, ◌>>◌, pure, must, attempt, outside, declare_direct, json, try_publish,
  with_channel, channel_of,
}

abbrev decimal : ℕ → Text
decimal n = digits (suc n) n

abbrev hello : ℕ → ℕ → Publishing
hello now i =
    record (json (
      codes "{\"id\": "
      ++ decimal i
      ++ codes ", \"message\": \"hello "
      ++ decimal i
      ++ codes "\"}")) { timestamp = now }

abbrev kind_of_message : Text → ℕ → ℕ → Publishing
kind_of_message kind now i =
    record (json (
      codes "{\"id\": "
      ++ decimal i
      ++ codes ", \"msg\": \""
      ++ kind
      ++ codes " message "
      ++ decimal i
      ++ codes "\"}")) { timestamp = now }

module _ {S : Type 0} (raw : Raw S) (host : Host S) where
  -- The select for the confirmation, left out where the publish has failed.
  unless_failed : (S → S) → Option Error → Run S (Unit {0})
  unless_failed wait none = outside wait
  unless_failed wait (some e) = pure tt

  -- The loop of examples/producer, from the i-th message on.
  publish_hellos : (ℕ → S → S) → ℕ → ℕ → ℕ → Run S (Unit {0})
  unfolding unless_failed
  publish_hellos wait confirms i zero = pure tt
  publish_hellos wait confirms i (suc left) = λ ch s.
      (try_publish raw "producer.example" "test" (hello (host.unix_nano s) i) >>= λ e.
      unless_failed (wait confirms) e >> publish_hellos wait confirms (suc i) left)
        ch s

  -- examples/producer
  unfoldable pub producer_main : (ℕ → S → S) → S → Result (Unit {0}) × S
  unfolding publish_hellos
  producer_main wait = with_channel raw host (codes "amqp.default") (λ client. do
    must (Messages.confirm raw false)
    confirms ← attempt (Notify.notify_publish raw)
    declare_direct raw "producer.example" "producer.example.queue" "test"
    publish_hellos wait confirms 0 10)

  module _ (wait : Wait S) where
    -- Errors are only logged.
    publish_synchronously : ℕ → ℕ → Producer S → S → Producer S × S
    publish_synchronously i zero p s = (p, s)
    publish_synchronously i (suc left) p s =
        let msg = kind_of_message (codes "sync") (host.unix_nano s) i in
        let (e, p', s') = publish raw wait "producer-confirm.ex" "confirm.test" msg p s in
        publish_synchronously (suc i) left p' s'

    publish_asynchronously : ℕ → ℕ → Producer S → S → Producer S × S
    publish_asynchronously i zero p s = (p, s)
    publish_asynchronously i (suc left) p s =
        let msg = kind_of_message (codes "async") (host.unix_nano s) i in
        let (c, p', s') = publish_async raw "producer-confirm.ex" "confirm.test" msg p s in
        publish_asynchronously (suc i) left p' s'

    -- The sleep of three seconds, and the deferred producer.Close().
    producer_ended : Channel S → Producer S × S → Result (Unit {0}) × Channel S × S
    producer_ended ch (p, s) =
        let (e, p', s') = close_producer raw p (host.sleep 3000000000 s) in
        (ok tt, channel_of ch p'.channel, s')

    producer_started : Channel S → Result (Producer S) × S → Result (Unit {0}) × Channel S × S
    unfolding producer_ended publish_synchronously publish_asynchronously
    producer_started ch (err e, s) = (err e, ch, s)
    producer_started ch (ok p, s) =
        let (p₁, s₁) = publish_synchronously 0 5 p s in
        producer_ended ch (publish_asynchronously 0 5 p₁ s₁)

    confirm_each : Run S (Unit {0})
    unfolding producer_started
    confirm_each ch s =
        producer_started ch (new_producer raw (some ch) (with_confirm (pos 5000000000) ∷ []) s)

    -- examples/producer-confirm
    unfoldable pub producer_confirm_main : S → Result (Unit {0}) × S
    unfolding confirm_each
    producer_confirm_main = with_channel raw host (codes "amqp.default") (λ client. do
      declare_direct raw "producer-confirm.ex" "producer-confirm.queue" "confirm.test"
      confirm_each)
