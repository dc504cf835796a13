-- ===== src/Helpers.antt =====
-- eamqp.go: the declare, publish, consume and RPC helpers. Client.NewChannel is the parameter
-- `new_channel`, and the waits are parameters.
pub mod Returned
use eamqp.Base.{
  ℕ, zero, suc, String, Bool, true, false, Option, none, some, List, [], ◌∷◌, Error, Result,
  Outcome, ok, err, returns, panics, rpc_closed, rpc_timeout, rpc_ack,
}
use eamqp.Amqp.Values.{Publishing, Queue, Delivery}
use eamqp.Amqp.Raw.{Raw}
use eamqp.Channel.{Channel, close}
use eamqp.Channel.Topology.{exchange_declare, queue_declare, queue_bind}
use eamqp.Channel.Publish.{publish}
use eamqp.Channel.Messages.{consume}

-- MustNew, on the result of New.
pub must_new : {A : Type 0} → Outcome (Result A) → Outcome A
must_new (returns (ok client)) = returns client
must_new (returns (err e)) = panics
must_new panics = panics

abbrev octets : String → List ℕ → Publishing
octets reply_to body = record {
  headers = none;
  content_type = "application/octet-stream";
  delivery_mode = 1;
  correlation_id = "";
  reply_to = reply_to;
  timestamp = 0;
  body = body;
}

-- What the select for the reply finds: a delivery, the end of the deliveries, or the timeout.
pub data Reply : Type 0 where
  replied : Delivery → Reply
  reply_closed : Reply
  timed_out : Reply

module _ {S : Type 0} (raw : Raw S) where
  -- if err := …; err != nil { return …, err }
  unfoldable pub or_else {ℓ} :
      {A : Type ℓ}
      → Option Error × Channel S × S
      → (Channel S → S → Result A × Channel S × S)
      → Result A × Channel S × S
  or_else (some e, ch, s) next = (err e, ch, s)
  or_else (none, ch, s) next = next ch s

  unfoldable pub and_then {ℓ κ} :
      {A : Type ℓ} {B : Type κ}
      → Result A × Channel S × S
      → (A → Channel S → S → Result B × Channel S × S)
      → Result B × Channel S × S
  and_then (err e, ch, s) next = (err e, ch, s)
  and_then (ok a, ch, s) next = next a ch s

  -- The bindings of DeclareExchangeAndQueue.
  unfoldable pub bind_all :
      String → String → List String → Queue → Channel S → S → Result Queue × Channel S × S
  unfolding or_else
  bind_all exchange queue [] q ch s = (ok q, ch, s)
  bind_all exchange queue (key ∷ keys) q ch s =
      or_else (queue_bind raw queue key exchange false none ch s) (bind_all exchange queue keys q)

  unfoldable pub declare_exchange_and_queue :
      String → String → String → List String → Bool → Channel S → S → Result Queue × Channel S × S
  unfolding bind_all and_then
  declare_exchange_and_queue exchange kind queue keys durable ch s =
      or_else (exchange_declare raw exchange kind durable false false false none ch s) (λ ch₁ s₁.
        and_then (queue_declare raw queue durable false false false none ch₁ s₁)
          (bind_all exchange queue keys))

  pub declare_work_queue : String → Channel S → S → Result Queue × Channel S × S
  declare_work_queue name ch s = queue_declare raw name true false false false none ch s

  pub declare_pub_sub : String → Channel S → S → Result Queue × Channel S × S
  unfolding or_else and_then
  declare_pub_sub exchange ch s =
      or_else (exchange_declare raw exchange "fanout" true false false false none ch s) (λ ch₁ s₁.
        and_then (queue_declare raw "" false true true false none ch₁ s₁) (λ q ch₂ s₂.
          or_else (queue_bind raw q.name "" exchange false none ch₂ s₂)
            (λ ch₃ s₃. (ok q, ch₃, s₃))))

  -- defer ch.Close()
  unfoldable pub closing {ℓ} : {A : Type ℓ} → A × Channel S × S → A × S
  closing (a, ch, s) = let (e, ch', s') = close raw ch s in (a, s')

  unfoldable pub publish_opened :
      String → String → List ℕ → Result (Channel S) × S → Option Error × S
  unfolding closing
  publish_opened exchange key body (err e, s) = (some e, s)
  publish_opened exchange key body (ok ch, s) =
      closing (publish raw exchange key false false (octets "" body) ch s)

  module _ (new_channel : S → Result (Channel S) × S) where
    unfoldable pub simple_publish : String → String → List ℕ → S → Option Error × S
    unfolding publish_opened
    simple_publish exchange key body s = publish_opened exchange key body (new_channel s)

    consume_opened : String → String → Bool → Result (Channel S) × S → Result ℕ × S
    consume_opened queue tag auto_ack (err e, s) = (err e, s)
    consume_opened queue tag auto_ack (ok ch, s) =
        let (r, ch', s') = consume raw queue tag auto_ack false false false none ch s in (r, s')

    -- SimpleConsume, which drops the channel.
    pub simple_consume : String → String → Bool → S → Result ℕ × S
    unfolding consume_opened
    simple_consume queue tag auto_ack s = consume_opened queue tag auto_ack (new_channel s)

    module _ (wait : ℕ → S → Reply × S) (ack : Delivery → Bool → S → Option Error × S) where
      unfoldable pub acked :
          Delivery → Option Error × S → Channel S → Result (List ℕ) × Channel S × S
      acked d (some e, s) ch = (err (rpc_ack e), ch, s)
      acked d (none, s) ch = (ok d.body, ch, s)

      unfoldable pub answered : Reply × S → Channel S → Result (List ℕ) × Channel S × S
      unfolding acked
      answered (replied d, s) ch = acked d (ack d false s) ch
      answered (reply_closed, s) ch = (err rpc_closed, ch, s)
      answered (timed_out, s) ch = (err rpc_timeout, ch, s)

      unfoldable pub request :
          String → String → String → List ℕ → Channel S → S → Result (List ℕ) × Channel S × S
      unfolding answered or_else and_then
      request exchange key reply_to body ch s =
          and_then (consume raw reply_to "" false false false false none ch s) (λ deliveries ch₁ s₁.
            or_else (publish raw exchange key false false (octets reply_to body) ch₁ s₁)
              (λ ch₂ s₂. answered (wait deliveries s₂) ch₂))

      unfoldable pub request_opened :
          String → String → String → List ℕ → Result (Channel S) × S → Result (List ℕ) × S
      unfolding request closing
      request_opened exchange key reply_to body (err e, s) = (err e, s)
      request_opened exchange key reply_to body (ok ch, s) =
          closing (request exchange key reply_to body ch s)

      unfoldable pub simple_rpc : String → String → String → List ℕ → S → Result (List ℕ) × S
      unfolding request_opened
      simple_rpc exchange key reply_to body s =
          request_opened exchange key reply_to body (new_channel s)

-- What ends a wait of ReconnectLoop: the context; the five seconds, or the notification of a close,
-- with its error if it has one.
pub data Awoken : Type 0 where
  cancelled : Error → Awoken
  over : Option Error → Awoken

module _ {S : Type 0} (connect : S → Option Error × S) (pause closed : S → Awoken × S) where
  -- After a failed connect and its pause; a connection then waits for its close.
  paused : (S → Option (Option Error) × S) → Awoken × S → Option (Option Error) × S
  paused again (cancelled e, s) = (some (some e), s)
  paused again (over e, s) = again s

  -- A close without an error is a clean one.
  ended : (S → Option (Option Error) × S) → Awoken × S → Option (Option Error) × S
  ended again (cancelled e, s) = (some (some e), s)
  ended again (over none, s) = (some none, s)
  ended again (over (some e), s) = again s

  attempted : (S → Option (Option Error) × S) → Option Error × S → Option (Option Error) × S
  unfolding paused ended
  attempted again (some e, s) = paused again (pause s)
  attempted again (none, s) = ended again (closed s)

  -- ReconnectLoop on fuel; the outer `none` is for a loop that is still running.
  unfoldable pub reconnect_loop : ℕ → S → Option (Option Error) × S
  unfolding attempted
  reconnect_loop zero s = (none, s)
  reconnect_loop (suc fuel) s = attempted (reconnect_loop fuel) (connect s)
