-- ===== src/Channel/Session.antt =====
-- channel.go: what becomes of a pooled raw channel, and what a closed wrapper does.
use eamqp.Base.{
  ℕ, ◌≡◌, refl, Bool, true, false, ◌||◌, Option, none, some, List, [], ◌∷◌, Error, arith,
  if◌then◌else◌,
}
use eamqp.Amqp.Raw.{Raw}
use eamqp.Channel.{Channel, ClientView, new_channel_with_release, perform, close, raw_channel}
use eamqp.Channel.Topology
use eamqp.Channel.Publish
use eamqp.Channel.Messages
use eamqp.Channel.Notify
use eamqp.Channel.Notify.{listened, confirmed}
use eamqp.Channel.Calls.{
  Call, changes_session, invoke, invoke_all, any_changes, exchange_declare,
  exchange_declare_passive, exchange_delete, exchange_bind, exchange_unbind, queue_declare,
  queue_declare_passive, queue_inspect, queue_bind, queue_unbind, queue_purge, queue_delete,
  publish, publish_with_context, publish_with_deferred_confirm,
  publish_with_deferred_confirm_with_context, consume, consume_with_context, cancel, get, qos, flow,
  tx, tx_commit, tx_rollback, confirm, get_next_publish_seq_no, ack, nack, reject, recover,
  notify_close, notify_flow, notify_return, notify_cancel, notify_publish, notify_confirm, use_raw,
}

-- A pooled wrapper in use, with its callbacks, that has been marked stateful or not.
pub record Pooled {S : Type 0} (c : ℕ) (r d : S → S) (b : Bool) (ch : Channel S) : Type 0 where
  pub holds : ch.amqp_ch ≡ some c
  pub is_open : ch.closing ≡ false
  pub gives_back : ch.release ≡ some r
  pub throws_away : ch.discard ≡ some d
  pub marked : ch.stateful ≡ b

module _ {S : Type 0} (raw : Raw S) (c : ℕ) (r d : S → S) (b : Bool) where
  perform-Pooled {ℓ} :
      {A : Type ℓ} (fail : Error → A) (stateful : Bool) (body : ℕ → S → A × S) (ch : Channel S)
      (s : S)
      → Pooled c r d b ch
      → Pooled c r d (stateful || b) (perform fail stateful body ch s).1
  unfolding perform
  perform-Pooled fail stateful body ch s h = ground arith

  listened-Pooled :
      (m : Bool) (x : Option ℕ × Channel S × S)
      → Pooled c r d m x.1
      → Pooled c r d m (listened raw x).1
  unfolding listened
  listened-Pooled m (none, ch, s) h = h
  listened-Pooled m (some n, ch, s) h = h

  confirmed-Pooled :
      (m : Bool) (i j : ℕ) (x : Option (Unit {0}) × Channel S × S)
      → Pooled c r d m x.1
      → Pooled c r d m (confirmed raw i j x).0
  unfolding confirmed
  confirmed-Pooled m i j (none, ch, s) h = h
  confirmed-Pooled m i j (some u, ch, s) h = h

  raw_channel-Pooled : (ch : Channel S) → Pooled c r d b ch → Pooled c r d true (raw_channel ch).1
  unfolding raw_channel
  raw_channel-Pooled ch h = ground arith

  -- Each method marks the wrapper exactly where it changes the session.
  invoke-Pooled :
      (call : Call) (ch : Channel S) (s : S)
      → Pooled c r d b ch
      → Pooled c r d (changes_session call || b) (invoke raw call ch s).1
  unfolding invoke changes_session Topology.exchange_declare Topology.exchange_declare_passive
      Topology.exchange_delete Topology.exchange_bind Topology.exchange_unbind
      Topology.queue_declare Topology.queue_declare_passive Topology.queue_inspect
      Topology.queue_bind Topology.queue_unbind Topology.queue_purge Topology.queue_delete
      Publish.publish Publish.publish_with_context Publish.publish_with_deferred_confirm
      Publish.publish_with_deferred_confirm_with_context Messages.consume
      Messages.consume_with_context Messages.cancel Messages.get Messages.qos Messages.flow
      Messages.tx Messages.tx_commit Messages.tx_rollback Messages.confirm
      Messages.get_next_publish_seq_no Messages.ack Messages.nack Messages.reject Messages.recover
      Notify.notify_close Notify.notify_flow Notify.notify_return Notify.notify_cancel
      Notify.notify_publish Notify.notify_confirm
  invoke-Pooled (exchange_declare _ _ _ _ _ _ _) ch s h = perform-Pooled _ _ _ ch s h
  invoke-Pooled (exchange_declare_passive _ _ _ _ _ _ _) ch s h = perform-Pooled _ _ _ ch s h
  invoke-Pooled (exchange_delete _ _ _) ch s h = perform-Pooled _ _ _ ch s h
  invoke-Pooled (exchange_bind _ _ _ _ _) ch s h = perform-Pooled _ _ _ ch s h
  invoke-Pooled (exchange_unbind _ _ _ _ _) ch s h = perform-Pooled _ _ _ ch s h
  invoke-Pooled (queue_declare _ _ _ _ _ _) ch s h = perform-Pooled _ _ _ ch s h
  invoke-Pooled (queue_declare_passive _ _ _ _ _ _) ch s h = perform-Pooled _ _ _ ch s h
  invoke-Pooled (queue_inspect _) ch s h = perform-Pooled _ _ _ ch s h
  invoke-Pooled (queue_bind _ _ _ _ _) ch s h = perform-Pooled _ _ _ ch s h
  invoke-Pooled (queue_unbind _ _ _ _) ch s h = perform-Pooled _ _ _ ch s h
  invoke-Pooled (queue_purge _ _) ch s h = perform-Pooled _ _ _ ch s h
  invoke-Pooled (queue_delete _ _ _ _) ch s h = perform-Pooled _ _ _ ch s h
  invoke-Pooled (publish _ _ _ _ _) ch s h = perform-Pooled _ _ _ ch s h
  invoke-Pooled (publish_with_context _ _ _ _ _ _) ch s h = perform-Pooled _ _ _ ch s h
  invoke-Pooled (publish_with_deferred_confirm _ _ _ _ _) ch s h = perform-Pooled _ _ _ ch s h
  invoke-Pooled (publish_with_deferred_confirm_with_context _ _ _ _ _ _) ch s h =
      perform-Pooled _ _ _ ch s h
  invoke-Pooled (consume _ _ _ _ _ _ _) ch s h = perform-Pooled _ _ _ ch s h
  invoke-Pooled (consume_with_context _ _ _ _ _ _ _ _) ch s h = perform-Pooled _ _ _ ch s h
  invoke-Pooled (cancel _ _) ch s h = perform-Pooled _ _ _ ch s h
  invoke-Pooled (get _ _) ch s h = perform-Pooled _ _ _ ch s h
  invoke-Pooled (qos _ _ _) ch s h = perform-Pooled _ _ _ ch s h
  invoke-Pooled (flow _) ch s h = perform-Pooled _ _ _ ch s h
  invoke-Pooled tx ch s h = perform-Pooled _ _ _ ch s h
  invoke-Pooled tx_commit ch s h = perform-Pooled _ _ _ ch s h
  invoke-Pooled tx_rollback ch s h = perform-Pooled _ _ _ ch s h
  invoke-Pooled (confirm _) ch s h = perform-Pooled _ _ _ ch s h
  invoke-Pooled get_next_publish_seq_no ch s h = perform-Pooled _ _ _ ch s h
  invoke-Pooled (ack _ _) ch s h = perform-Pooled _ _ _ ch s h
  invoke-Pooled (nack _ _ _) ch s h = perform-Pooled _ _ _ ch s h
  invoke-Pooled (reject _ _) ch s h = perform-Pooled _ _ _ ch s h
  invoke-Pooled (recover _) ch s h = perform-Pooled _ _ _ ch s h
  invoke-Pooled notify_close ch s h = listened-Pooled true _ (perform-Pooled _ _ _ ch s h)
  invoke-Pooled notify_flow ch s h = listened-Pooled true _ (perform-Pooled _ _ _ ch s h)
  invoke-Pooled notify_return ch s h = listened-Pooled true _ (perform-Pooled _ _ _ ch s h)
  invoke-Pooled notify_cancel ch s h = listened-Pooled true _ (perform-Pooled _ _ _ ch s h)
  invoke-Pooled notify_publish ch s h = listened-Pooled true _ (perform-Pooled _ _ _ ch s h)
  invoke-Pooled (notify_confirm _ _) ch s h =
      confirmed-Pooled true _ _ _ (perform-Pooled _ _ _ ch s h)
  invoke-Pooled use_raw ch s h = raw_channel-Pooled ch h

module _ {S : Type 0} (raw : Raw S) (c : ℕ) (r d : S → S) where
  or_regroup : (a b m : Bool) → (b || (a || m)) ≡ ((a || b) || m)
  or_regroup true true m = refl
  or_regroup true false m = refl
  or_regroup false b m = refl

  invoke_all-Pooled :
      (calls : List Call) (b : Bool) (ch : Channel S) (s : S)
      → Pooled c r d b ch
      → Pooled c r d (any_changes calls || b) (invoke_all raw calls ch s).0
  unfolding invoke_all any_changes
  invoke_all-Pooled [] b ch s h = h
  invoke_all-Pooled (x ∷ xs) b ch s h = rw (← or_regroup (changes_session x) (any_changes xs) b) (
      invoke_all-Pooled xs (changes_session x || b) (invoke raw x ch s).1 (invoke raw x ch s).2
        (invoke-Pooled raw c r d b x ch s h))

  close-Pooled :
      (b : Bool) (ch : Channel S) (s : S)
      → Pooled c r d b ch
      → ((close raw ch s).0 ≡ none) × ((close raw ch s).2 ≡ (if b then d s else r s))
  unfolding close
  close-Pooled b ch s h = ground arith

  new-Pooled :
      (client : Option ClientView) → Pooled c r d false (new_channel_with_release c client r d)
  unfolding new_channel_with_release
  new-Pooled client = record {
    holds = refl;
    is_open = refl;
    gives_back = refl;
    throws_away = refl;
    marked = refl;
  }

  or_false : (b : Bool) → (b || false) ≡ b
  or_false true = refl
  or_false false = refl

  -- Whatever methods a holder calls on a pooled channel, in any order and with any outcome, Close then
  -- discards the raw channel if one of them changes the session (a consumer, prefetch, flow,
  -- transaction or confirm mode, a listener, or raw access), and releases it for reuse if none does.
  pub close-invoke_all :
      (client : Option ClientView) (calls : List Call) (s : S)
      → let (ch, s') = invoke_all raw calls (new_channel_with_release c client r d) s in
        ((close raw ch s').0 ≡ none)
        × ((close raw ch s').2 ≡ (if any_changes calls then d s' else r s'))
  close-invoke_all client calls s =
      let p = invoke_all-Pooled calls false _ s (new-Pooled client) in
      close-Pooled (any_changes calls) _ _ (rw or_false at p)
