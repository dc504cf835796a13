-- ===== src/Channel/Publish.antt =====
-- channel.go, the methods that publish, and trace.go, the span around a publish.
use eamqp.Base.{
  ℕ, ◌-◌, String, Bool, false, Option, none, some, Error, Result, ok, err, length, if◌then◌else◌,
  ◌&&◌, [],
}
use eamqp.Amqp.Values.{Table, Publishing}
use eamqp.Amqp.Raw.{Raw, publish_failed, published, message_published, publish_latency}
use eamqp.Channel.{Channel, ClientView, perform, log_entry, record_metric, trace_enabled}

-- The context of a call without one.
abbrev pub background : ℕ
background = 0

-- amqp.Table{} in place of a nil map.
abbrev pub present : Table → Table
present none = some []
present (some t) = some t

module _ {S : Type 0} (raw : Raw S) where
  -- The two metrics of a published message.
  unfoldable pub record_published : Option ClientView → ℕ → ℕ → S → S
  record_published client size duration s =
      record_metric raw client (publish_latency duration)
        (record_metric raw client (message_published size) s)

  -- What Publish does with the raw method's error; the clock read before it was `start`.
  unfoldable pub after_publish :
      Option ClientView → String → String → ℕ → ℕ → Option Error × S → Option Error × S
  unfolding record_published
  after_publish client exchange key size start (some e, s) =
      (some e, log_entry raw client (publish_failed exchange key e) s)
  after_publish client exchange key size start (none, s) =
      let duration = raw.now s - start in
      (
        none,
        log_entry raw client (published exchange key size duration)
            (record_published client size duration s),
      )

  -- The same in PublishWithContext, which logs only failures.
  unfoldable pub after_traced :
      Option ClientView → String → String → ℕ → ℕ → Option Error × S → Option Error × S
  unfolding record_published
  after_traced client exchange key size start (some e, s) =
      (some e, log_entry raw client (publish_failed exchange key e) s)
  after_traced client exchange key size start (none, s) =
      (none, record_published client size (raw.now s - start) s)

  unfoldable pub after_deferred :
      Option ClientView → String → String → ℕ → ℕ → Result (Option ℕ) × S → Result (Option ℕ) × S
  unfolding record_published
  after_deferred client exchange key size start (err e, s) =
      (err e, log_entry raw client (publish_failed exchange key e) s)
  after_deferred client exchange key size start (ok d, s) =
      (ok d, record_published client size (raw.now s - start) s)

  unfoldable pub publish :
      String → String → Bool → Bool → Publishing → Channel S → S → Option Error × Channel S × S
  publish exchange key mandatory immediate msg ch s =
      perform some false
        (λ c t.
          after_publish ch.client exchange key (length msg.body) (raw.now t)
            (raw.publish c exchange key mandatory immediate msg t))
        ch s

  -- trace.go, startPublishTrace: the context, the headers, and the span to end, if there is one. A
  -- span is named by the context that carries it.
  unfoldable pub start_publish_trace : ℕ → Table → Bool → S → ℕ × Table × Option ℕ × S
  start_publish_trace ctx headers enabled s =
      let h = present headers in
      let (ctx', h', s') = raw.start_trace ctx h s in
      if enabled && raw.tracer_registered s then (ctx', h', some ctx', s') else (ctx, h, none, s)

  unfoldable pub end_span {ℓ} : {A : Type ℓ} → Option ℕ → A × S → A × S
  end_span none r = r
  end_span (some span) (a, s) = (a, raw.end_trace span s)

  unfoldable pub publish_with_context :
      ℕ → String → String → Bool → Bool → Publishing → Channel S → S → Option Error × Channel S × S
  unfolding end_span
  publish_with_context ctx exchange key mandatory immediate msg ch s =
      perform some false
        (λ c t.
          let (ctx', h, span, u) =
            start_publish_trace ctx msg.headers (trace_enabled ch.client) t in
          end_span span (
            after_traced ch.client exchange key (length msg.body) (raw.now u) (
              raw.publish_with_context c ctx' exchange key mandatory immediate
                (record msg { headers = h }) u)))
        ch s

  unfoldable pub publish_with_deferred_confirm_with_context :
      ℕ
      → String
      → String
      → Bool
      → Bool
      → Publishing
      → Channel S
      → S
      → Result (Option ℕ) × Channel S × S
  unfolding end_span
  publish_with_deferred_confirm_with_context ctx exchange key mandatory immediate msg ch s =
      perform err false
        (λ c t.
          let (ctx', h, span, u) =
            start_publish_trace ctx msg.headers (trace_enabled ch.client) t in
          end_span span (
            after_deferred ch.client exchange key (length msg.body) (raw.now u) (
              raw.publish_with_deferred_confirm c ctx' exchange key mandatory immediate
                (record msg { headers = h }) u)))
        ch s

  unfoldable pub publish_with_deferred_confirm :
      String → String → Bool → Bool → Publishing → Channel S → S → Result (Option ℕ) × Channel S × S
  unfolding publish_with_deferred_confirm_with_context
  publish_with_deferred_confirm exchange key mandatory immediate msg ch s =
      publish_with_deferred_confirm_with_context background exchange key mandatory immediate msg ch
        s
