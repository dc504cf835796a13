-- ===== src/Channel/Calls.antt =====
-- channel.go, the methods of Channel as values: what a holder of the wrapper may call, besides Close
-- and IsClosed, in any order.
use eamqp.Base.{
  ℕ, String, Bool, true, false, Option, none, some, List, [], ◌∷◌, Error, Result, ok, err, ◌||◌,
}
use eamqp.Base.Int.{ℤ}
use eamqp.Amqp.Values.{Table, Publishing}
use eamqp.Amqp.Raw.{Raw}
use eamqp.Channel.{Channel, raw_channel}
use eamqp.Channel.Topology
use eamqp.Channel.Publish
use eamqp.Channel.Messages
use eamqp.Channel.Notify

pub data Call : Type 0 where
  exchange_declare : String → String → Bool → Bool → Bool → Bool → Table → Call
  exchange_declare_passive : String → String → Bool → Bool → Bool → Bool → Table → Call
  exchange_delete : String → Bool → Bool → Call
  exchange_bind : String → String → String → Bool → Table → Call
  exchange_unbind : String → String → String → Bool → Table → Call
  queue_declare : String → Bool → Bool → Bool → Bool → Table → Call
  queue_declare_passive : String → Bool → Bool → Bool → Bool → Table → Call
  queue_inspect : String → Call
  queue_bind : String → String → String → Bool → Table → Call
  queue_unbind : String → String → String → Table → Call
  queue_purge : String → Bool → Call
  queue_delete : String → Bool → Bool → Bool → Call
  publish : String → String → Bool → Bool → Publishing → Call
  publish_with_context : ℕ → String → String → Bool → Bool → Publishing → Call
  publish_with_deferred_confirm : String → String → Bool → Bool → Publishing → Call
  publish_with_deferred_confirm_with_context : ℕ → String → String → Bool → Bool → Publishing → Call
  consume : String → String → Bool → Bool → Bool → Bool → Table → Call
  consume_with_context : ℕ → String → String → Bool → Bool → Bool → Bool → Table → Call
  cancel : String → Bool → Call
  get : String → Bool → Call
  qos : ℤ → ℤ → Bool → Call
  flow : Bool → Call
  tx : Call
  tx_commit : Call
  tx_rollback : Call
  confirm : Bool → Call
  get_next_publish_seq_no : Call
  ack : ℕ → Bool → Call
  nack : ℕ → Bool → Bool → Call
  reject : ℕ → Bool → Call
  recover : Bool → Call
  notify_close : Call
  notify_flow : Call
  notify_return : Call
  notify_cancel : Call
  notify_publish : Call
  notify_confirm : ℕ → ℕ → Call
  use_raw : Call

-- Whether the method leaves something behind on the raw channel that a later holder would meet: a
-- consumer, a prefetch limit, paused flow, transaction or confirm mode, a listener, or anything that
-- was done with the raw channel itself.
unfoldable pub changes_session : Call → Bool
changes_session (consume a b c d e f g) = true
changes_session (consume_with_context a b c d e f g h) = true
changes_session (qos a b c) = true
changes_session (flow a) = true
changes_session tx = true
changes_session (confirm a) = true
changes_session notify_close = true
changes_session notify_flow = true
changes_session notify_return = true
changes_session notify_cancel = true
changes_session notify_publish = true
changes_session (notify_confirm a b) = true
changes_session use_raw = true
changes_session _ = false

-- Whether the method's result has an error.
unfoldable pub returns_error : Call → Bool
returns_error get_next_publish_seq_no = false
returns_error notify_close = false
returns_error notify_flow = false
returns_error notify_return = false
returns_error notify_cancel = false
returns_error notify_publish = false
returns_error (notify_confirm a b) = false
returns_error use_raw = false
returns_error _ = true

abbrev pub error_of {ℓ} : {A : Type ℓ} → Result A → Option Error
error_of (ok a) = none
error_of (err e) = some e

module _ {S : Type 0} (raw : Raw S) where
  abbrev pub failing {ℓ} : {A : Type ℓ} → Result A × Channel S × S → Option Error × Channel S × S
  failing (r, ch, s) = (error_of r, ch, s)

  abbrev pub unfailing {ℓ} : {A : Type ℓ} → A × Channel S × S → Option Error × Channel S × S
  unfailing (a, ch, s) = (none, ch, s)

  -- The method on a channel, with the error of its result.
  unfoldable pub invoke : Call → Channel S → S → Option Error × Channel S × S
  invoke (exchange_declare a b c d e f g) ch s = Topology.exchange_declare raw a b c d e f g ch s
  invoke (exchange_declare_passive a b c d e f g) ch s =
      Topology.exchange_declare_passive raw a b c d e f g ch s
  invoke (exchange_delete a b c) ch s = Topology.exchange_delete raw a b c ch s
  invoke (exchange_bind a b c d e) ch s = Topology.exchange_bind raw a b c d e ch s
  invoke (exchange_unbind a b c d e) ch s = Topology.exchange_unbind raw a b c d e ch s
  invoke (queue_declare a b c d e f) ch s = failing (Topology.queue_declare raw a b c d e f ch s)
  invoke (queue_declare_passive a b c d e f) ch s =
      failing (Topology.queue_declare_passive raw a b c d e f ch s)
  invoke (queue_inspect a) ch s = failing (Topology.queue_inspect raw a ch s)
  invoke (queue_bind a b c d e) ch s = Topology.queue_bind raw a b c d e ch s
  invoke (queue_unbind a b c d) ch s = Topology.queue_unbind raw a b c d ch s
  invoke (queue_purge a b) ch s = failing (Topology.queue_purge raw a b ch s)
  invoke (queue_delete a b c d) ch s = failing (Topology.queue_delete raw a b c d ch s)
  invoke (publish a b c d e) ch s = Publish.publish raw a b c d e ch s
  invoke (publish_with_context a b c d e f) ch s = Publish.publish_with_context raw a b c d e f ch s
  invoke (publish_with_deferred_confirm a b c d e) ch s =
      failing (Publish.publish_with_deferred_confirm raw a b c d e ch s)
  invoke (publish_with_deferred_confirm_with_context a b c d e f) ch s =
      failing (Publish.publish_with_deferred_confirm_with_context raw a b c d e f ch s)
  invoke (consume a b c d e f g) ch s = failing (Messages.consume raw a b c d e f g ch s)
  invoke (consume_with_context a b c d e f g h) ch s =
      failing (Messages.consume_with_context raw a b c d e f g h ch s)
  invoke (cancel a b) ch s = Messages.cancel raw a b ch s
  invoke (get a b) ch s = failing (Messages.get raw a b ch s)
  invoke (qos a b c) ch s = Messages.qos raw a b c ch s
  invoke (flow a) ch s = Messages.flow raw a ch s
  invoke tx ch s = Messages.tx raw ch s
  invoke tx_commit ch s = Messages.tx_commit raw ch s
  invoke tx_rollback ch s = Messages.tx_rollback raw ch s
  invoke (confirm a) ch s = Messages.confirm raw a ch s
  invoke get_next_publish_seq_no ch s = unfailing (Messages.get_next_publish_seq_no raw ch s)
  invoke (ack a b) ch s = Messages.ack raw a b ch s
  invoke (nack a b c) ch s = Messages.nack raw a b c ch s
  invoke (reject a b) ch s = Messages.reject raw a b ch s
  invoke (recover a) ch s = Messages.recover raw a ch s
  invoke notify_close ch s = unfailing (Notify.notify_close raw ch s)
  invoke notify_flow ch s = unfailing (Notify.notify_flow raw ch s)
  invoke notify_return ch s = unfailing (Notify.notify_return raw ch s)
  invoke notify_cancel ch s = unfailing (Notify.notify_cancel raw ch s)
  invoke notify_publish ch s = unfailing (Notify.notify_publish raw ch s)
  invoke (notify_confirm a b) ch s =
      let (ch', s') = Notify.notify_confirm raw a b ch s in (none, ch', s')
  invoke use_raw ch s = let (c, ch') = raw_channel ch in (none, ch', s)

  -- Several calls, one after the other.
  unfoldable pub invoke_all : List Call → Channel S → S → Channel S × S
  invoke_all [] ch s = (ch, s)
  invoke_all (c ∷ cs) ch s = let (e, ch', s') = invoke c ch s in invoke_all cs ch' s'

-- Whether one of the calls changes the session.
unfoldable pub any_changes : List Call → Bool
any_changes [] = false
any_changes (c ∷ cs) = changes_session c || any_changes cs
