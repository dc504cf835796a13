-- ===== src/Consumer.antt =====
-- consumer.go: Consumer and RetryConsumer. What the select of a consuming loop finds is an explicit
-- sequence; the handler, the acknowledgement of a delivery, time.Sleep, and the waiting for a handler
-- with a timeout are parameters.
pub mod Settling
pub mod Timed
pub mod Retries
pub mod Workers
use eamqp.Base.{
  ℕ, zero, suc, ◌+◌, String, Bool, true, false, Option, none, some, List, [], ◌∷◌, Error, Result,
  ok, err, workers_timeout, retries_exceeded, retries_without_error, if◌then◌else◌,
}
use eamqp.Base.Int.{ℤ, pos, negsuc}
use eamqp.Amqp.Values.{Table, Delivery}
use eamqp.Amqp.Raw.{Raw}
use eamqp.Channel.{Channel, close}
use eamqp.Channel.Messages

pub record ConsumerOptions : Type 0 where
  pub auto_ack : Bool
  pub exclusive : Bool
  pub no_local : Bool
  pub no_wait : Bool
  pub args : Table

pub with_consumer_auto_ack : ConsumerOptions → ConsumerOptions
with_consumer_auto_ack o = record o { auto_ack = true }

pub with_consumer_exclusive : ConsumerOptions → ConsumerOptions
with_consumer_exclusive o = record o { exclusive = true }

pub with_consumer_args : Table → ConsumerOptions → ConsumerOptions
with_consumer_args args o = record o { args = args }

pub record Consumer (S : Type 0) : Type 0 where
  pub channel : Channel S
  pub queue : String
  pub opts : ConsumerOptions

apply_options : List (ConsumerOptions → ConsumerOptions) → ConsumerOptions → ConsumerOptions
apply_options [] o = o
apply_options (opt ∷ opts) o = apply_options opts (opt o)

pub new_consumer :
    {S : Type 0} → Channel S → String → List (ConsumerOptions → ConsumerOptions) → Consumer S
unfolding apply_options
new_consumer ch queue opts = record {
  channel = ch;
  queue = queue;
  opts = apply_options opts (record {
    auto_ack = false;
    exclusive = false;
    no_local = false;
    no_wait = false;
    args = none;
  });
}

pub record RetryConsumer (S : Type 0) : Type 0 where
  pub consumer : Consumer S
  pub max_retries : ℤ
  pub retry_delay : ℤ

-- Never fails.
pub new_retry_consumer :
    {S : Type 0}
    → Channel S
    → String
    → ℤ
    → ℤ
    → List (ConsumerOptions → ConsumerOptions)
    → Result (RetryConsumer S)
new_retry_consumer ch queue max_retries retry_delay opts = ok (record {
  consumer = new_consumer ch queue opts;
  max_retries = max_retries;
  retry_delay = retry_delay;
})

-- delivery.Ack and delivery.Nack, whose errors the loops drop.
pub record Acknowledger (S : Type 0) : Type 0 where
  pub ack : Delivery → Bool → S → S
  pub nack : Delivery → Bool → Bool → S → S

-- What the select of a loop finds: a delivery, the end of the deliveries, or that the context is done.
pub data Arrival : Type 0 where
  delivered : Delivery → Arrival
  ended : Arrival
  cancelled : Error → Arrival

abbrev pub Handler : Type 0 → Type 0
Handler S = Delivery → S → Option Error × S

-- The retry loop's error, which wraps the last one; with a negative limit there is none.
abbrev pub exceeded : Option Error → Error
exceeded none = retries_without_error
exceeded (some e) = retries_exceeded e

-- if err == nil { return nil }; lastErr = err
unfoldable pub unless_done :
    {S : Type 0} → Option Error × S → (Option Error → S → Option Error × S) → Option Error × S
unless_done (none, s) again = (none, s)
unless_done (some e, s) again = again (some e) s

module _ {S : Type 0} (acks : Acknowledger S) where
  -- After the handler: nack with requeue on its error, ack otherwise, unless the broker does it.
  unfoldable pub settle : Bool → Delivery → Option Error × S → S
  settle auto_ack d (some e, s) = if auto_ack then s else acks.nack d false true s
  settle auto_ack d (none, s) = if auto_ack then s else acks.ack d false s

  -- The loop of ConsumeWithHandler. The outer `none` is for a loop that waits for its next arrival.
  unfoldable pub handle_all : Bool → Handler S → List Arrival → S → Option (Option Error) × S
  unfolding settle
  handle_all auto_ack handler [] s = (none, s)
  handle_all auto_ack handler (delivered d ∷ rest) s =
      handle_all auto_ack handler rest (settle auto_ack d (handler d s))
  handle_all auto_ack handler (ended ∷ rest) s = (some none, s)
  handle_all auto_ack handler (cancelled e ∷ rest) s = (some (some e), s)

  -- ConsumeWithTimeout: `timed` runs the handler, and is `none` where the timeout comes first, which
  -- is settled like a handler's error.
  unfoldable pub settle_timed : Bool → Delivery → Option (Option Error) × S → S
  unfolding settle
  settle_timed auto_ack d (some e, s) = settle auto_ack d (e, s)
  settle_timed auto_ack d (none, s) = if auto_ack then s else acks.nack d false true s

  unfoldable pub handle_timed :
      Bool → (Delivery → S → Option (Option Error) × S) → List Delivery → S → S
  unfolding settle_timed
  handle_timed auto_ack timed [] s = s
  handle_timed auto_ack timed (d ∷ ds) s =
      handle_timed auto_ack timed ds (settle_timed auto_ack d (timed d s))

module _ {S : Type 0} (sleep : ℤ → S → S) where
  -- The retry loop with `left` attempts to go; before the first one nothing is slept.
  unfoldable pub retry_from :
      ℕ → Bool → Option Error → ℤ → Handler S → Delivery → S → Option Error × S
  unfolding unless_done
  retry_from zero first last delay handler d s = (some (exceeded last), s)
  retry_from (suc left) first last delay handler d s =
      unless_done (handler d (if first then s else sleep delay s))
        (λ e t. retry_from left false e delay handler d t)

  -- for attempt := 0; attempt <= maxRetries; attempt++
  abbrev pub attempts : ℤ → ℕ
  attempts (pos n) = suc n
  attempts (negsuc n) = 0

  -- The handler that ConsumeWithRetry passes to ConsumeWithHandler.
  unfoldable pub retrying : ℤ → ℤ → Handler S → Handler S
  unfolding retry_from
  retrying max_retries delay handler d s =
      retry_from (attempts max_retries) true none delay handler d s

module _ {S : Type 0} (raw : Raw S) where
  unfoldable pub consume : String → Consumer S → S → Result ℕ × Consumer S × S
  consume tag c s =
      let o = c.opts in
      let (r, ch, s') =
        Messages.consume raw c.queue tag o.auto_ack o.exclusive o.no_local o.no_wait o.args
          c.channel s in
      (r, record c { channel = ch }, s')

  pub cancel_consumer : String → Consumer S → S → Option Error × Consumer S × S
  cancel_consumer tag c s =
      let (e, ch, s') = Messages.cancel raw tag false c.channel s in
      (e, record c { channel = ch }, s')

  pub close_consumer : Consumer S → S → Option Error × Consumer S × S
  close_consumer c s = let (e, ch, s') = close raw c.channel s in (e, record c { channel = ch }, s')

module _ {S : Type 0} (raw : Raw S) (acks : Acknowledger S) where
  handled :
      Handler S → List Arrival → Result ℕ × Consumer S × S → Option (Option Error) × Consumer S × S
  handled handler arrivals (err e, c, s) = (some (some e), c, s)
  handled handler arrivals (ok deliveries, c, s) =
      let (r, s') = handle_all acks c.opts.auto_ack handler arrivals s in (r, c, s')

  unfoldable pub consume_with_handler :
      String → Handler S → List Arrival → Consumer S → S → Option (Option Error) × Consumer S × S
  unfolding handled
  consume_with_handler tag handler arrivals c s = handled handler arrivals (consume raw tag c s)

  timed_handled :
      (Delivery → S → Option (Option Error) × S)
      → List Delivery
      → Result ℕ × Consumer S × S
      → Option Error × Consumer S × S
  timed_handled timed ds (err e, c, s) = (some e, c, s)
  timed_handled timed ds (ok deliveries, c, s) =
      (none, c, handle_timed acks c.opts.auto_ack timed ds s)

  -- ConsumeWithTimeout over the deliveries up to the end of their Go channel.
  unfoldable pub consume_with_timeout :
      String
      → (Delivery → S → Option (Option Error) × S)
      → List Delivery
      → Consumer S
      → S
      → Option Error × Consumer S × S
  unfolding timed_handled
  consume_with_timeout tag timed ds c s = timed_handled timed ds (consume raw tag c s)

  kept :
      RetryConsumer S
      → Option (Option Error) × Consumer S × S
      → Option (Option Error) × RetryConsumer S × S
  kept rc (e, c, s) = (e, record rc { consumer = c }, s)

  unfoldable pub consume_with_retry :
      (ℤ → S → S)
      → String
      → Handler S
      → List Arrival
      → RetryConsumer S
      → S
      → Option (Option Error) × RetryConsumer S × S
  unfolding kept
  consume_with_retry sleep tag handler arrivals rc s = kept rc (
      consume_with_handler tag (retrying sleep rc.max_retries rc.retry_delay handler) arrivals
        rc.consumer s)
