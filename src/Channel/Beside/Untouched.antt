-- ===== src/Channel/Beside/Untouched.antt =====
-- channel.go: no method reaches what stands beside the raw channel's own state.
use eamqp.Base.{
  ℕ, ◌≡◌, refl, ◌∙◌, String, Bool, Option, none, some, List, [], ◌∷◌, Error, Result, ok, err,
  Bool-cases, inl, inr, Option-cases, ◌&&◌,
}
use eamqp.Amqp.Values.{Table, Queue}
use eamqp.Amqp.Raw.{Raw, Log, Metric}
use eamqp.Channel.{Channel, ClientView, perform, log_entry, record_metric}
use eamqp.Channel.Beside.{beside}
use eamqp.Channel.Topology
use eamqp.Channel.Topology.{logged, logged_queue}
use eamqp.Channel.Publish
use eamqp.Channel.Publish.{
  record_published, after_publish, after_traced, after_deferred, end_span, start_publish_trace,
}
use eamqp.Channel.Messages
use eamqp.Channel.Messages.{after_consume}
use eamqp.Channel.Notify
use eamqp.Channel.Notify.{listened, confirmed}
use eamqp.Channel.Calls.{
  Call, invoke, invoke_all, exchange_declare, exchange_declare_passive, exchange_delete,
  exchange_bind, exchange_unbind, queue_declare, queue_declare_passive, queue_inspect, queue_bind,
  queue_unbind, queue_purge, queue_delete, publish, publish_with_context,
  publish_with_deferred_confirm, publish_with_deferred_confirm_with_context, consume,
  consume_with_context, cancel, get, qos, flow, tx, tx_commit, tx_rollback, confirm,
  get_next_publish_seq_no, ack, nack, reject, recover, notify_close, notify_flow, notify_return,
  notify_cancel, notify_publish, notify_confirm, use_raw,
}

module _ {P W : Type 0} (raw : Raw W) where
  perform-beside {ℓ} :
      {A : Type ℓ} (fail : Error → A) (stateful : Bool) (body : ℕ → P × W → A × (P × W))
      (ch : Channel (P × W)) (s : P × W)
      → ((c : ℕ) (t : P × W) → (body c t).1.0 ≡ t.0)
      → (perform fail stateful body ch s).2.0 ≡ s.0
  unfolding perform
  perform-beside fail stateful body ch s h = elim (Option-cases ch.amqp_ch) [
    | inl gone ↦ rw gone refl
    | inr (c, there) ↦ elim (Bool-cases ch.closing) [
      | inl shut ↦ rw (there, shut) refl
      | inr live ↦ rw (there, live) (h c s)
    ]
  ]

  log_entry-beside :
      (v : Option ClientView) (entry : Log) (s : P × W) → (log_entry (beside raw) v entry s).0 ≡ s.0
  unfolding log_entry
  log_entry-beside none entry s = refl
  log_entry-beside (some v) entry s = elim (Bool-cases v.has_logger) [
    | inl on ↦ rw on refl
    | inr off ↦ rw off refl
  ]

  record_metric-beside :
      (v : Option ClientView) (m : Metric) (s : P × W) → (record_metric (beside raw) v m s).0 ≡ s.0
  unfolding record_metric
  record_metric-beside none m s = refl
  record_metric-beside (some v) m s = elim (Bool-cases v.has_metrics) [
    | inl on ↦ rw on refl
    | inr off ↦ rw off refl
  ]

  logged-beside :
      (v : Option ClientView) (entry : Log) (r : Option Error × (P × W))
      → (logged (beside raw) v entry r).1.0 ≡ r.1.0
  unfolding logged
  logged-beside v entry (none, s) = log_entry-beside v entry s
  logged-beside v entry (some e, s) = refl

  logged_queue-beside :
      (v : Option ClientView) (r : Result Queue × (P × W))
      → (logged_queue (beside raw) v r).1.0 ≡ r.1.0
  unfolding logged_queue
  logged_queue-beside v (ok q, s) = log_entry-beside v _ s
  logged_queue-beside v (err e, s) = refl

  after_consume-beside :
      (v : Option ClientView) (entry : Log) (r : Result ℕ × (P × W))
      → (after_consume (beside raw) v entry r).1.0 ≡ r.1.0
  unfolding after_consume
  after_consume-beside v entry (ok d, s) = log_entry-beside v entry s
  after_consume-beside v entry (err e, s) = refl

  record_published-beside :
      (v : Option ClientView) (size duration : ℕ) (s : P × W)
      → (record_published (beside raw) v size duration s).0 ≡ s.0
  unfolding record_published
  record_published-beside v size duration s =
      record_metric-beside v _ _ ∙ record_metric-beside v _ s

  after_publish-beside :
      (v : Option ClientView) (exchange key : String) (size start : ℕ) (r : Option Error × (P × W))
      → (after_publish (beside raw) v exchange key size start r).1.0 ≡ r.1.0
  unfolding after_publish
  after_publish-beside v exchange key size start (some e, s) = log_entry-beside v _ s
  after_publish-beside v exchange key size start (none, s) =
      log_entry-beside v _ _ ∙ record_published-beside v size _ s

  after_traced-beside :
      (v : Option ClientView) (exchange key : String) (size start : ℕ) (r : Option Error × (P × W))
      → (after_traced (beside raw) v exchange key size start r).1.0 ≡ r.1.0
  unfolding after_traced
  after_traced-beside v exchange key size start (some e, s) = log_entry-beside v _ s
  after_traced-beside v exchange key size start (none, s) = record_published-beside v size _ s

  after_deferred-beside :
      (v : Option ClientView) (exchange key : String) (size start : ℕ)
      (r : Result (Option ℕ) × (P × W))
      → (after_deferred (beside raw) v exchange key size start r).1.0 ≡ r.1.0
  unfolding after_deferred
  after_deferred-beside v exchange key size start (err e, s) = log_entry-beside v _ s
  after_deferred-beside v exchange key size start (ok d, s) = record_published-beside v size _ s

  end_span-beside {ℓ} :
      {A : Type ℓ} (span : Option ℕ) (r : A × (P × W)) → (end_span (beside raw) span r).1.0 ≡ r.1.0
  unfolding end_span
  end_span-beside none r = refl
  end_span-beside (some n) (a, s) = refl

  start_publish_trace-beside :
      (ctx : ℕ) (headers : Table) (enabled : Bool) (s : P × W)
      → (start_publish_trace (beside raw) ctx headers enabled s).3.0 ≡ s.0
  unfolding start_publish_trace
  start_publish_trace-beside ctx headers enabled s =
      elim (Bool-cases (enabled && raw.tracer_registered s.1)) [
        | inl on ↦ rw on refl
        | inr off ↦ rw off refl
      ]

  listened-beside :
      (r : Option ℕ × Channel (P × W) × (P × W)) → (listened (beside raw) r).2.0 ≡ r.2.0
  unfolding listened
  listened-beside (some n, ch, s) = refl
  listened-beside (none, ch, s) = refl

  confirmed-beside :
      (acks nacks : ℕ) (r : Option (Unit {0}) × Channel (P × W) × (P × W))
      → (confirmed (beside raw) acks nacks r).1.0 ≡ r.2.0
  unfolding confirmed
  confirmed-beside acks nacks (some ran, ch, s) = refl
  confirmed-beside acks nacks (none, ch, s) = refl

  pub invoke-beside :
      (call : Call) (ch : Channel (P × W)) (s : P × W) → (invoke (beside raw) call ch s).2.0 ≡ s.0
  unfolding invoke Topology.exchange_declare Topology.exchange_declare_passive
      Topology.exchange_delete Topology.exchange_bind Topology.exchange_unbind
      Topology.queue_declare Topology.queue_declare_passive Topology.queue_inspect
      Topology.queue_bind Topology.queue_unbind Topology.queue_purge Topology.queue_delete
      Publish.publish Publish.publish_with_context Publish.publish_with_deferred_confirm
      Publish.publish_with_deferred_confirm_with_context Messages.consume
      Messages.consume_with_context Messages.cancel Messages.get Messages.qos Messages.flow
      Messages.tx Messages.tx_commit Messages.tx_rollback Messages.confirm
      Messages.get_next_publish_seq_no Messages.ack Messages.nack Messages.reject Messages.recover
      Notify.notify_close Notify.notify_flow Notify.notify_return Notify.notify_cancel
      Notify.notify_publish Notify.notify_confirm
  invoke-beside (exchange_declare _ _ _ _ _ _ _) ch s =
      perform-beside _ _ _ ch s (λ c t. logged-beside ch.client _ _)
  invoke-beside (exchange_declare_passive _ _ _ _ _ _ _) ch s =
      perform-beside _ _ _ ch s (λ c t. refl)
  invoke-beside (exchange_delete _ _ _) ch s = perform-beside _ _ _ ch s (λ c t. refl)
  invoke-beside (exchange_bind _ _ _ _ _) ch s = perform-beside _ _ _ ch s (λ c t. refl)
  invoke-beside (exchange_unbind _ _ _ _ _) ch s = perform-beside _ _ _ ch s (λ c t. refl)
  invoke-beside (queue_declare _ _ _ _ _ _) ch s =
      perform-beside _ _ _ ch s (λ c t. logged_queue-beside ch.client _)
  invoke-beside (queue_declare_passive _ _ _ _ _ _) ch s = perform-beside _ _ _ ch s (λ c t. refl)
  invoke-beside (queue_inspect _) ch s = perform-beside _ _ _ ch s (λ c t. refl)
  invoke-beside (queue_bind _ _ _ _ _) ch s =
      perform-beside _ _ _ ch s (λ c t. logged-beside ch.client _ _)
  invoke-beside (queue_unbind _ _ _ _) ch s = perform-beside _ _ _ ch s (λ c t. refl)
  invoke-beside (queue_purge _ _) ch s = perform-beside _ _ _ ch s (λ c t. refl)
  invoke-beside (queue_delete _ _ _ _) ch s = perform-beside _ _ _ ch s (λ c t. refl)
  invoke-beside (publish _ _ _ _ _) ch s =
      perform-beside _ _ _ ch s (λ c t. after_publish-beside ch.client _ _ _ _ _)
  invoke-beside (publish_with_context _ _ _ _ _ _) ch s = perform-beside _ _ _ ch s (λ c t.
      end_span-beside _ _
      ∙ after_traced-beside ch.client _ _ _ _ _
      ∙ start_publish_trace-beside _ _ _ t)
  invoke-beside (publish_with_deferred_confirm _ _ _ _ _) ch s = perform-beside _ _ _ ch s (λ c t.
      end_span-beside _ _
      ∙ after_deferred-beside ch.client _ _ _ _ _
      ∙ start_publish_trace-beside _ _ _ t)
  invoke-beside (publish_with_deferred_confirm_with_context _ _ _ _ _ _) ch s =
      perform-beside _ _ _ ch s (λ c t.
        end_span-beside _ _
        ∙ after_deferred-beside ch.client _ _ _ _ _
        ∙ start_publish_trace-beside _ _ _ t)
  invoke-beside (consume _ _ _ _ _ _ _) ch s =
      perform-beside _ _ _ ch s (λ c t. after_consume-beside ch.client _ _)
  invoke-beside (consume_with_context _ _ _ _ _ _ _ _) ch s =
      perform-beside _ _ _ ch s (λ c t. refl)
  invoke-beside (cancel _ _) ch s = perform-beside _ _ _ ch s (λ c t. logged-beside ch.client _ _)
  invoke-beside (get _ _) ch s = perform-beside _ _ _ ch s (λ c t. refl)
  invoke-beside (qos _ _ _) ch s = perform-beside _ _ _ ch s (λ c t. refl)
  invoke-beside (flow _) ch s = perform-beside _ _ _ ch s (λ c t. refl)
  invoke-beside tx ch s = perform-beside _ _ _ ch s (λ c t. refl)
  invoke-beside tx_commit ch s = perform-beside _ _ _ ch s (λ c t. refl)
  invoke-beside tx_rollback ch s = perform-beside _ _ _ ch s (λ c t. refl)
  invoke-beside (confirm _) ch s = perform-beside _ _ _ ch s (λ c t. refl)
  invoke-beside get_next_publish_seq_no ch s = perform-beside _ _ _ ch s (λ c t. refl)
  invoke-beside (ack _ _) ch s = perform-beside _ _ _ ch s (λ c t. refl)
  invoke-beside (nack _ _ _) ch s = perform-beside _ _ _ ch s (λ c t. refl)
  invoke-beside (reject _ _) ch s = perform-beside _ _ _ ch s (λ c t. refl)
  invoke-beside (recover _) ch s = perform-beside _ _ _ ch s (λ c t. refl)
  invoke-beside notify_close ch s = listened-beside _ ∙ perform-beside _ _ _ ch s (λ c t. refl)
  invoke-beside notify_flow ch s = listened-beside _ ∙ perform-beside _ _ _ ch s (λ c t. refl)
  invoke-beside notify_return ch s = listened-beside _ ∙ perform-beside _ _ _ ch s (λ c t. refl)
  invoke-beside notify_cancel ch s = listened-beside _ ∙ perform-beside _ _ _ ch s (λ c t. refl)
  invoke-beside notify_publish ch s = listened-beside _ ∙ perform-beside _ _ _ ch s (λ c t. refl)
  invoke-beside (notify_confirm _ _) ch s =
      confirmed-beside _ _ _ ∙ perform-beside _ _ _ ch s (λ c t. refl)
  invoke-beside use_raw ch s = refl

  pub invoke_all-beside :
      (calls : List Call) (ch : Channel (P × W)) (s : P × W)
      → (invoke_all (beside raw) calls ch s).1.0 ≡ s.0
  unfolding invoke_all
  invoke_all-beside [] ch s = refl
  invoke_all-beside (c ∷ cs) ch s = invoke_all-beside cs _ _ ∙ invoke-beside c ch s
