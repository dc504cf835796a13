-- ===== src/Channel/Messages.antt =====
-- channel.go, the methods that consume and acknowledge messages and set the session's mode.
use eamqp.Base.{ℕ, String, Bool, true, false, Option, some, Error, Result, ok, err}
use eamqp.Base.Int.{ℤ}
use eamqp.Amqp.Values.{Table, Delivery}
use eamqp.Amqp.Raw.{Raw, Log, consumer_started, consumer_cancelled}
use eamqp.Channel.{Channel, ClientView, perform, log_entry}
use eamqp.Channel.Topology.{logged}

module _ {S : Type 0} (raw : Raw S) where
  unfoldable pub after_consume : Option ClientView → Log → Result ℕ × S → Result ℕ × S
  after_consume client entry (err e, s) = (err e, s)
  after_consume client entry (ok d, s) = (ok d, log_entry raw client entry s)

  unfoldable pub consume :
      String → String → Bool → Bool → Bool → Bool → Table → Channel S → S → Result ℕ × Channel S × S
  consume queue consumer auto_ack exclusive no_local no_wait args ch s =
      perform err true
        (λ c t.
          after_consume ch.client (consumer_started queue consumer auto_ack)
            (raw.consume c queue consumer auto_ack exclusive no_local no_wait args t))
        ch s

  unfoldable pub consume_with_context :
      ℕ
      → String
      → String
      → Bool
      → Bool
      → Bool
      → Bool
      → Table
      → Channel S
      → S
      → Result ℕ × Channel S × S
  consume_with_context ctx queue consumer auto_ack exclusive no_local no_wait args ch s =
      perform err true
        (λ c.
          raw.consume_with_context c ctx queue consumer auto_ack exclusive no_local no_wait args)
        ch s

  unfoldable pub cancel : String → Bool → Channel S → S → Option Error × Channel S × S
  cancel consumer no_wait ch s =
      perform some false
        (λ c t.
          logged raw ch.client (consumer_cancelled consumer) (raw.cancel c consumer no_wait t))
        ch s

  -- `none` is the result with no message.
  unfoldable pub get : String → Bool → Channel S → S → Result (Option Delivery) × Channel S × S
  get queue auto_ack ch s = perform err false (λ c. raw.get c queue auto_ack) ch s

  unfoldable pub qos : ℤ → ℤ → Bool → Channel S → S → Option Error × Channel S × S
  qos prefetch_count prefetch_size global ch s =
      perform some true (λ c. raw.qos c prefetch_count prefetch_size global) ch s

  unfoldable pub flow : Bool → Channel S → S → Option Error × Channel S × S
  flow active ch s = perform some true (λ c. raw.flow c active) ch s

  unfoldable pub tx : Channel S → S → Option Error × Channel S × S
  tx ch s = perform some true (λ c. raw.tx c) ch s

  unfoldable pub tx_commit : Channel S → S → Option Error × Channel S × S
  tx_commit ch s = perform some false (λ c. raw.tx_commit c) ch s

  unfoldable pub tx_rollback : Channel S → S → Option Error × Channel S × S
  tx_rollback ch s = perform some false (λ c. raw.tx_rollback c) ch s

  unfoldable pub confirm : Bool → Channel S → S → Option Error × Channel S × S
  confirm no_wait ch s = perform some true (λ c. raw.confirm c no_wait) ch s

  -- 0 stands for a closed channel too.
  unfoldable pub get_next_publish_seq_no : Channel S → S → ℕ × Channel S × S
  get_next_publish_seq_no ch s = perform (λ e. 0) false (λ c. raw.get_next_publish_seq_no c) ch s

  unfoldable pub ack : ℕ → Bool → Channel S → S → Option Error × Channel S × S
  ack tag multiple ch s = perform some false (λ c. raw.ack c tag multiple) ch s

  unfoldable pub nack : ℕ → Bool → Bool → Channel S → S → Option Error × Channel S × S
  nack tag multiple requeue ch s = perform some false (λ c. raw.nack c tag multiple requeue) ch s

  unfoldable pub reject : ℕ → Bool → Channel S → S → Option Error × Channel S × S
  reject tag requeue ch s = perform some false (λ c. raw.reject c tag requeue) ch s

  unfoldable pub recover : Bool → Channel S → S → Option Error × Channel S × S
  recover requeue ch s = perform some false (λ c. raw.recover c requeue) ch s
