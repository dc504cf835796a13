-- ===== src/Producer.antt =====
-- producer.go: Producer and BatchProducer. Waiting for a confirmation is a parameter: the select of
-- waitForDeferredConfirm over amqp091-go's deferred confirmation, the context and a timer.
pub mod Confirms
pub mod Batch
pub mod Flush
use eamqp.Base.{
  ℕ, String, Bool, true, false, Option, none, some, List, [], ◌∷◌, Error, Result, ok, err,
  producer_nil, confirmation_nil, confirm_timeout, not_acknowledged, if◌then◌else◌,
}
use eamqp.Base.Int.{ℤ, pos}
use eamqp.Amqp.Values.{Publishing}
use eamqp.Amqp.Raw.{Raw, message_confirmed, message_nacked}
use eamqp.Channel.{Channel, ClientView, record_metric, close}
use eamqp.Channel.Publish
use eamqp.Channel.Messages

-- How the wait ends: the confirmation is there, with its ack flag and its delivery tag; the context is
-- done, with its error; or the timer has fired.
pub data Settled : Type 0 where
  confirmed : Bool → ℕ → Settled
  cancelled : Error → Settled
  timed_out : Settled

-- The wait on a context, a deferred confirmation and a timeout.
abbrev pub Wait : Type 0 → Type 0
Wait S = ℕ → ℕ → ℤ → S → Settled × S

-- `channel` is `none` where the pointer is nil.
pub record Producer (S : Type 0) : Type 0 where
  pub channel : Option (Channel S)
  pub enabled : Bool
  pub timeout : ℤ

-- WithConfirm.
pub with_confirm : {S : Type 0} → ℤ → Producer S → Producer S
with_confirm timeout p = record p { enabled = true; timeout = timeout }

module _ {S : Type 0} where
  apply_options : List (Producer S → Producer S) → Producer S → Producer S
  apply_options [] p = p
  apply_options (opt ∷ opts) p = apply_options opts (opt p)

  -- An operation that has left the channel in this state.
  abbrev pub keeping {ℓ} : {A : Type ℓ} → A × Channel S × S → Producer S → A × Producer S × S
  keeping (a, ch, s) p = (a, record p { channel = some ch }, s)

module _ {S : Type 0} (raw : Raw S) where
  -- What NewProducer returns once Confirm has answered.
  started : Option Error × Producer S × S → Result (Producer S) × S
  started (some e, p, s) = (err e, s)
  started (none, p, s) = (ok p, s)

  -- No option changes the channel. The five seconds are in nanoseconds.
  pub new_producer :
      Option (Channel S) → List (Producer S → Producer S) → S → Result (Producer S) × S
  unfolding started apply_options
  new_producer none opts s = (err producer_nil, s)
  new_producer (some ch) opts s =
      let p =
        apply_options opts
          (record { channel = some ch; enabled = false; timeout = pos 5000000000 }) in
      let r = started (keeping (Messages.confirm raw false ch s) p) in
      if p.enabled then r else (ok p, s)

  module _ (wait : Wait S) where
    abbrev pub record_message_confirmed : Option ClientView → S → S
    record_message_confirmed client s = record_metric raw client message_confirmed s

    abbrev pub record_message_nacked : Option ClientView → S → S
    record_message_nacked client s = record_metric raw client message_nacked s

    unfoldable pub record_confirmation : Option ClientView → Bool → ℕ → S → Option Error × S
    record_confirmation client ack tag s =
        if ack
        then (none, record_message_confirmed client s)
        else (some (not_acknowledged tag), record_message_nacked client s)

    unfoldable pub settle : Option ClientView → Settled × S → Option Error × S
    unfolding record_confirmation
    settle client (confirmed ack tag, s) = record_confirmation client ack tag s
    settle client (cancelled e, s) = (some e, s)
    settle client (timed_out, s) = (some confirm_timeout, s)

    unfoldable pub wait_for_deferred_confirm :
        ℕ → ℤ → Option ClientView → Option ℕ → S → Option Error × S
    unfolding settle
    wait_for_deferred_confirm ctx timeout client none s = (some confirmation_nil, s)
    wait_for_deferred_confirm ctx timeout client (some c) s = settle client (wait ctx c timeout s)

    -- What follows the publish with a deferred confirmation.
    unfoldable pub await : ℕ → ℤ → Result (Option ℕ) × Channel S × S → Option Error × Channel S × S
    unfolding wait_for_deferred_confirm
    await ctx timeout (err e, ch, s) = (some e, ch, s)
    await ctx timeout (ok c, ch, s) =
        let (e, s') = wait_for_deferred_confirm ctx timeout ch.client c s in (e, ch, s')

    unfoldable pub publish_on :
        String
        → String
        → Bool
        → Bool
        → Publishing
        → Option (Channel S)
        → Producer S
        → S
        → Option Error × Producer S × S
    unfolding await
    publish_on exchange key mandatory immediate msg none p s = (some producer_nil, p, s)
    publish_on exchange key mandatory immediate msg (some ch) p s =
        keeping
          (if p.enabled
            then await Publish.background p.timeout (
                Publish.publish_with_deferred_confirm raw exchange key mandatory immediate msg ch s)
            else Publish.publish raw exchange key mandatory immediate msg ch s)
          p

    -- PublishWithOptions; Publish is this with both flags off.
    unfoldable pub publish_with_options :
        String → String → Bool → Bool → Publishing → Producer S → S → Option Error × Producer S × S
    unfolding publish_on
    publish_with_options exchange key mandatory immediate msg p s =
        publish_on exchange key mandatory immediate msg p.channel p s

    unfoldable pub publish :
        String → String → Publishing → Producer S → S → Option Error × Producer S × S
    unfolding publish_with_options
    publish exchange key msg p s = publish_with_options exchange key false false msg p s

    publish_on_with :
        ℕ
        → String
        → String
        → Bool
        → Bool
        → Publishing
        → Option (Channel S)
        → Producer S
        → S
        → Option Error × Producer S × S
    unfolding await
    publish_on_with ctx exchange key mandatory immediate msg none p s = (some producer_nil, p, s)
    publish_on_with ctx exchange key mandatory immediate msg (some ch) p s =
        keeping
          (if p.enabled
            then await ctx p.timeout (
                Publish.publish_with_deferred_confirm_with_context raw ctx exchange key mandatory
                  immediate msg ch s)
            else Publish.publish_with_context raw ctx exchange key mandatory immediate msg ch s)
          p

    unfoldable pub publish_with_context_options :
        ℕ
        → String
        → String
        → Bool
        → Bool
        → Publishing
        → Producer S
        → S
        → Option Error × Producer S × S
    unfolding publish_on_with
    publish_with_context_options ctx exchange key mandatory immediate msg p s =
        publish_on_with ctx exchange key mandatory immediate msg p.channel p s

    pub publish_with_context :
        ℕ → String → String → Publishing → Producer S → S → Option Error × Producer S × S
    publish_with_context ctx exchange key msg p s =
        publish_with_context_options ctx exchange key false false msg p s

  unconfirmed :
      String
      → String
      → Publishing
      → Option (Channel S)
      → Producer S
      → S
      → Result (Option ℕ) × Producer S × S
  unconfirmed exchange key msg none p s = (err producer_nil, p, s)
  unconfirmed exchange key msg (some ch) p s =
      keeping (Publish.publish_with_deferred_confirm raw exchange key false false msg ch s) p

  pub publish_async :
      String → String → Publishing → Producer S → S → Result (Option ℕ) × Producer S × S
  unfolding unconfirmed
  publish_async exchange key msg p s = unconfirmed exchange key msg p.channel p s

  shut : Option (Channel S) → Producer S → S → Option Error × Producer S × S
  shut none p s = (some producer_nil, p, s)
  shut (some ch) p s = keeping (close raw ch s) p

  pub close_producer : Producer S → S → Option Error × Producer S × S
  unfolding shut
  close_producer p s = shut p.channel p s
