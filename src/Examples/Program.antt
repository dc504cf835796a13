-- ===== src/Examples/Program.antt =====
-- examples/: what the programs have in common. A program runs on the channel that it has opened; an
-- error is the one that log.Fatalf reports, which ends the process there, without the deferred calls.
use eamqp.Base.{
  ℕ, String, true, false, Option, none, some, List, [], ◌∷◌, Error, Result, ok, err, usage,
}
use eamqp.Text.{Text}
use eamqp.Amqp.Values.{Publishing, Queue, Delivery}
use eamqp.Amqp.Raw.{Raw}
use eamqp.Channel.{Channel, close}
use eamqp.Channel.Topology
use eamqp.Channel.Publish
use eamqp.Consumer.{Arrival, delivered, ended, cancelled}

abbrev pub Run : Type 0 → Type 0 → Type 0
Run S A = Channel S → S → Result A × Channel S × S

module _ {S : Type 0} where
  abbrev pub continued :
      {A B : Type 0} → Result A × Channel S × S → (A → Run S B) → Result B × Channel S × S
  continued (err e, ch, s) next = (err e, ch, s)
  continued (ok a, ch, s) next = next a ch s

  infixl 5 ◌>>=◌ ◌>>◌
  abbrev pub ◌>>=◌ : {A B : Type 0} → Run S A → (A → Run S B) → Run S B
  (m >>= next) ch s = continued (m ch s) next

  abbrev pub ◌>>◌ : {B : Type 0} → Run S (Unit {0}) → Run S B → Run S B
  m >> next = m >>= λ _. next

  abbrev pub pure : {A : Type 0} → A → Run S A
  pure a ch s = (ok a, ch, s)

  abbrev pub of_error : Option Error × Channel S × S → Result (Unit {0}) × Channel S × S
  of_error (none, ch, s) = (ok tt, ch, s)
  of_error (some e, ch, s) = (err e, ch, s)

  -- if err := …; err != nil { log.Fatalf(…) }
  abbrev pub must : (Channel S → S → Option Error × Channel S × S) → Run S (Unit {0})
  must call ch s = of_error (call ch s)

  -- An error that is only logged, or not looked at.
  abbrev pub attempt : {A : Type 0} → (Channel S → S → A × Channel S × S) → Run S A
  attempt call ch s = let (a, ch', s') = call ch s in (ok a, ch', s')

  abbrev pub stopped : {A : Type 0} → Error → Run S A
  stopped e ch s = (err e, ch, s)

  -- What acts outside the channel, such as the acknowledgement of a delivery or time.Sleep.
  abbrev pub outside : (S → S) → Run S (Unit {0})
  outside f ch s = (ok tt, ch, f s)

-- The environment of a program: its client, the channels that it opens, and the clock.
pub record Host (S : Type 0) : Type 1 where
  pub Handle : Type 0
  pub open_client : Text → S → Result Handle × S
  pub new_channel : Handle → S → Result (Channel S) × S
  pub acquire_channel : Handle → S → Result (Channel S) × S
  pub notify_close : Handle → S → S
  pub close_client : Handle → S → S
  pub sleep : ℕ → S → S
  pub unix : S → ℕ
  pub unix_nano : S → ℕ

module _ {S : Type 0} (raw : Raw S) (host : Host S) where
  -- The deferred ch.Close() and client.Close() of a program that ends.
  closed_down : host.Handle → Result (Unit {0}) × Channel S × S → Result (Unit {0}) × S
  closed_down client (err e, ch, s) = (err e, s)
  closed_down client (ok u, ch, s) =
      let (e, ch', s') = close raw ch s in (ok u, host.close_client client s')

  on_channel : host.Handle → Run S (Unit {0}) → Result (Channel S) × S → Result (Unit {0}) × S
  unfolding closed_down
  on_channel client body (err e, s) = (err e, s)
  on_channel client body (ok ch, s) = closed_down client (body ch s)

  on_client : (host.Handle → Run S (Unit {0})) → Result host.Handle × S → Result (Unit {0}) × S
  unfolding on_channel
  on_client body (err e, s) = (err e, s)
  on_client body (ok client, s) = on_channel client (body client) (host.new_channel client s)

  -- LoadClient, NewChannel, and the rest of main.
  unfoldable pub with_channel : Text → (host.Handle → Run S (Unit {0})) → S → Result (Unit {0}) × S
  unfolding on_client
  with_channel key body s = on_client body (host.open_client key s)

  -- The same for a program whose first argument is its role.
  unfoldable pub with_role :
      List Text → Text → (Text → host.Handle → Run S (Unit {0})) → S → Result (Unit {0}) × S
  unfolding with_channel
  with_role [] key body s = (err usage, s)
  with_role (role ∷ args) key body s = with_channel key (body role) s

-- The channel of a program as a producer that works on it has left it.
abbrev pub channel_of : {S : Type 0} → Channel S → Option (Channel S) → Channel S
channel_of ch none = ch
channel_of ch (some c) = c

-- A persistent JSON message.
abbrev pub json : Text → Publishing
json body = record {
  headers = none;
  content_type = "application/json";
  delivery_mode = 2;
  correlation_id = "";
  reply_to = "";
  timestamp = 0;
  body = body;
}

module _ {S : Type 0} (raw : Raw S) where
  -- A publish whose error is only logged.
  unfoldable pub try_publish : String → String → Publishing → Run S (Option Error)
  try_publish exchange key msg = attempt (Publish.publish raw exchange key false false msg)

  -- A durable direct exchange, a durable queue, and a binding of the two.
  unfoldable pub declare_direct : String → String → String → Run S (Unit {0})
  declare_direct exchange queue key = do
    must (Topology.exchange_declare raw exchange "direct" true false false false none)
    _ ← Topology.queue_declare raw queue true false false false none
    must (Topology.queue_bind raw queue key exchange false none)

  -- countQueue; a queue that cannot be inspected has no messages.
  unfoldable pub messages_or_zero : Result Queue × Channel S × S → ℕ × Channel S × S
  messages_or_zero (err e, ch, s) = (0, ch, s)
  messages_or_zero (ok q, ch, s) = (q.messages, ch, s)

  unfoldable pub count_queue : String → Channel S → S → ℕ × Channel S × S
  unfolding messages_or_zero
  count_queue name ch s =
      messages_or_zero (Topology.queue_declare_passive raw name true false false false none ch s)

-- The loop of a consuming program over what its select finds: each delivery is dealt with, and the
-- program ends with the deliveries or on a signal.
unfoldable pub for_each :
    {S : Type 0} → (Delivery → Run S (Unit {0})) → List Arrival → Run S (Unit {0})
for_each handle [] = pure tt
for_each handle (delivered d ∷ rest) = handle d >> for_each handle rest
for_each handle (ended ∷ rest) = pure tt
for_each handle (cancelled e ∷ rest) = pure tt
