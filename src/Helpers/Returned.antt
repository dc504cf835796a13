-- ===== src/Helpers/Returned.antt =====
-- eamqp.go, SimplePublish and SimpleRPC: the channel that they take goes back, on every path.
use eamqp.Base.{
  ℕ, ◌+◌, ◌≡◌, refl, ◌∙◌, ap, String, Bool, true, false, Option, none, some, List, Error, Result,
  ok, err, if◌then◌else◌, Bool-cases, inl, inr,
}
use eamqp.Amqp.Values.{Table, Publishing, Delivery}
use eamqp.Amqp.Raw.{Raw, Log, Metric}
use eamqp.Channel.{Channel, ClientView, log_entry, record_metric, new_channel_with_release}
use eamqp.Channel.Leased.{Leased, new-Leased, perform-Leased, close-Leased}
use eamqp.Channel.Publish.{publish, after_publish, record_published}
use eamqp.Channel.Messages.{consume, after_consume}
use eamqp.Helpers.{
  Reply, replied, reply_closed, timed_out, octets, or_else, and_then, closing, publish_opened,
  simple_publish, acked, answered, request, request_opened, simple_rpc,
}

module _ {S : Type 0} (raw : Raw S) (wait : ℕ → S → Reply × S)
    (ack : Delivery → Bool → S → Option Error × S) (counts : S → ℕ × ℕ) where
  -- The calls that the helpers make outside change neither of the two counts.
  pub record Calls : Type 0 where
    pub consumes :
        (c : ℕ) (queue tag : String) (auto_ack exclusive no_local no_wait : Bool) (args : Table)
        (s : S)
        → counts (raw.consume c queue tag auto_ack exclusive no_local no_wait args s).1 ≡ counts s
    pub publishes :
        (c : ℕ) (exchange key : String) (mandatory immediate : Bool) (msg : Publishing) (s : S)
        → counts (raw.publish c exchange key mandatory immediate msg s).1 ≡ counts s
    pub logs : (entry : Log) (s : S) → counts (raw.log entry s) ≡ counts s
    pub records : (m : Metric) (s : S) → counts (raw.record_metric m s) ≡ counts s
    pub waits : (d : ℕ) (s : S) → counts (wait d s).1 ≡ counts s
    pub acks : (d : Delivery) (many : Bool) (s : S) → counts (ack d many s).1 ≡ counts s

  module _ (calls : Calls) (c : ℕ) (on_release on_discard : S → S) where
    logged_counts :
        (v : Option ClientView) (entry : Log) (s : S) → counts (log_entry raw v entry s) ≡ counts s
    unfolding log_entry
    logged_counts none entry s = refl
    logged_counts (some v) entry s = elim (Bool-cases v.has_logger) [
      | inl on ↦ rw on (calls.logs entry s)
      | inr off ↦ rw off refl
    ]

    recorded_counts :
        (v : Option ClientView) (m : Metric) (s : S) → counts (record_metric raw v m s) ≡ counts s
    unfolding record_metric
    recorded_counts none m s = refl
    recorded_counts (some v) m s = elim (Bool-cases v.has_metrics) [
      | inl on ↦ rw on (calls.records m s)
      | inr off ↦ rw off refl
    ]

    after_consume_counts :
        (v : Option ClientView) (entry : Log) (r : Result ℕ × S)
        → counts (after_consume raw v entry r).1 ≡ counts r.1
    unfolding after_consume
    after_consume_counts v entry (err e, s) = refl
    after_consume_counts v entry (ok d, s) = logged_counts v entry s

    after_publish_counts :
        (v : Option ClientView) (exchange key : String) (size start : ℕ) (r : Option Error × S)
        → counts (after_publish raw v exchange key size start r).1 ≡ counts r.1
    unfolding after_publish record_published
    after_publish_counts v exchange key size start (some e, s) = logged_counts v _ s
    after_publish_counts v exchange key size start (none, s) =
        logged_counts v _ _ ∙ recorded_counts v _ _ ∙ recorded_counts v _ s

    -- The counts are `n`, and the channel is leased still.
    abbrev Holds {ℓ} : {A : Type ℓ} → Bool → ℕ × ℕ → A × Channel S × S → Type 0
    Holds used n r = (counts r.2 ≡ n) × Leased c on_release on_discard used r.1

    consume-Holds :
        (queue tag : String) (auto_ack used : Bool) (ch : Channel S) (s : S)
        → Leased c on_release on_discard used ch
        → Holds true (counts s) (consume raw queue tag auto_ack false false false none ch s)
    unfolding consume
    consume-Holds queue tag auto_ack used ch s l =
        perform-Leased c on_release on_discard counts err true used _ ch s
          (λ t.
            after_consume_counts ch.client _ _
            ∙ calls.consumes c queue tag auto_ack false false false none t)
          l

    publish-Holds :
        (exchange key : String) (msg : Publishing) (used : Bool) (ch : Channel S) (s : S)
        → Leased c on_release on_discard used ch
        → Holds used (counts s) (publish raw exchange key false false msg ch s)
    unfolding publish
    publish-Holds exchange key msg used ch s l =
        perform-Leased c on_release on_discard counts some false used _ ch s
          (λ t.
            after_publish_counts ch.client _ _ _ _ _
            ∙ calls.publishes c exchange key false false msg t)
          l

    and_then-Holds {ℓ κ} :
        {A : Type ℓ} {B : Type κ} (used : Bool) (n : ℕ × ℕ) (r : Result A × Channel S × S)
        (next : A → Channel S → S → Result B × Channel S × S)
        → Holds used n r
        → ((a : A) (ch : Channel S) (s : S)
            → Leased c on_release on_discard used ch
            → counts s ≡ n
            → Holds used n (next a ch s))
        → Holds used n (and_then raw r next)
    unfolding and_then
    and_then-Holds used n (err e, ch, s) next h k = h
    and_then-Holds used n (ok a, ch, s) next h k = k a ch s h.1 h.0

    or_else-Holds {ℓ} :
        {A : Type ℓ} (used : Bool) (n : ℕ × ℕ) (r : Option Error × Channel S × S)
        (next : Channel S → S → Result A × Channel S × S)
        → Holds used n r
        → ((ch : Channel S) (s : S)
            → Leased c on_release on_discard used ch
            → counts s ≡ n
            → Holds used n (next ch s))
        → Holds used n (or_else raw r next)
    unfolding or_else
    or_else-Holds used n (some e, ch, s) next h k = h
    or_else-Holds used n (none, ch, s) next h k = k ch s h.1 h.0

    module _ (new_channel : S → Result (Channel S) × S) where
      acked-Holds :
          (n : ℕ × ℕ) (d : Delivery) (r : Option Error × S) (ch : Channel S)
          → Leased c on_release on_discard true ch
          → counts r.1 ≡ n
          → Holds true n (acked raw new_channel wait ack d r ch)
      unfolding acked
      acked-Holds n d (some e, s) ch l h = (h, l)
      acked-Holds n d (none, s) ch l h = (h, l)

      answered-Holds :
          (n : ℕ × ℕ) (r : Reply × S) (ch : Channel S)
          → Leased c on_release on_discard true ch
          → counts r.1 ≡ n
          → Holds true n (answered raw new_channel wait ack r ch)
      unfolding answered
      answered-Holds n (replied d, s) ch l h =
          acked-Holds n d (ack d false s) ch l (calls.acks d false s ∙ h)
      answered-Holds n (reply_closed, s) ch l h = (h, l)
      answered-Holds n (timed_out, s) ch l h = (h, l)

      request-Holds :
          (exchange key reply_to : String) (body : List ℕ) (ch : Channel S) (s : S)
          → Leased c on_release on_discard false ch
          → Holds true (counts s) (request raw new_channel wait ack exchange key reply_to body ch s)
      unfolding request
      request-Holds exchange key reply_to body ch s l =
          and_then-Holds true (counts s) (consume raw reply_to "" false false false false none ch s)
            _ (consume-Holds reply_to "" false false ch s l)
            (λ d ch₁ s₁ l₁ h₁.
              let sent = publish-Holds exchange key (octets reply_to body) true ch₁ s₁ l₁ in
              or_else-Holds true (counts s)
                (publish raw exchange key false false (octets reply_to body) ch₁ s₁) _
                (sent.0 ∙ h₁, sent.1)
                (λ ch₂ s₂ l₂ h₂.
                  answered-Holds (counts s) (wait d s₂) ch₂ l₂ (calls.waits d s₂ ∙ h₂)))

      closing-counts {ℓ} :
          {A : Type ℓ} (used : Bool) (r : A × Channel S × S)
          → Leased c on_release on_discard used r.1
          → (closing raw r).1 ≡ (if used then on_discard r.2 else on_release r.2)
      unfolding closing
      closing-counts used (a, ch, s) l = close-Leased c on_release on_discard raw used ch s l

      -- SimpleRPC that gets a channel from the pool gives it back by exactly one call of its discard
      -- callback and none of the release callback, whatever happens: an error of the consume, of the
      -- publish or of the ack, a closed consumer, the timeout, or a reply. A channel with a consumer
      -- on it is never leased again. (`counts` counts the calls of the two callbacks; what else the
      -- code calls changes neither.)
      pub simple_rpc-discards :
          (v : Option ClientView) (exchange key reply_to : String) (body : List ℕ) (s s₁ : S)
          → ((t : S) → counts (on_discard t) ≡ ((counts t).0, (counts t).1 + 1))
          → new_channel s ≡ (ok (new_channel_with_release c v on_release on_discard), s₁)
          → counts (simple_rpc raw new_channel wait ack exchange key reply_to body s).1
            ≡ ((counts s₁).0, (counts s₁).1 + 1)
      unfolding simple_rpc request_opened
      simple_rpc-discards v exchange key reply_to body s s₁ discards got =
          let ch = new_channel_with_release c v on_release on_discard in
          let held =
            request-Holds exchange key reply_to body ch s₁ (new-Leased c on_release on_discard v) in
          let r = request raw new_channel wait ack exchange key reply_to body ch s₁ in
          rw got (
            ap counts (closing-counts true r held.1)
            ∙ discards r.2
            ∙ ap (λ n. (n.0, n.1 + 1)) held.0)

      -- SimplePublish that gets a channel from the pool gives it back by exactly one call of its
      -- release callback and none of the discard callback, whether the publish fails or not.
      -- (`counts` counts the calls of the two callbacks; what else the code calls changes neither.)
      pub simple_publish-releases :
          (v : Option ClientView) (exchange key : String) (body : List ℕ) (s s₁ : S)
          → ((t : S) → counts (on_release t) ≡ ((counts t).0 + 1, (counts t).1))
          → new_channel s ≡ (ok (new_channel_with_release c v on_release on_discard), s₁)
          → counts (simple_publish raw new_channel exchange key body s).1
            ≡ ((counts s₁).0 + 1, (counts s₁).1)
      unfolding simple_publish publish_opened
      simple_publish-releases v exchange key body s s₁ releases got =
          let ch = new_channel_with_release c v on_release on_discard in
          let held =
            publish-Holds exchange key (octets "" body) false ch s₁
              (new-Leased c on_release on_discard v) in
          let r = publish raw exchange key false false (octets "" body) ch s₁ in
          rw got (
            ap counts (closing-counts false r held.1)
            ∙ releases r.2
            ∙ ap (λ n. (n.0 + 1, n.1)) held.0)
