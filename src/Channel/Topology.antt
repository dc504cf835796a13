-- ===== src/Channel/Topology.antt =====
-- channel.go, the methods that declare, bind and delete exchanges and queues. Each is the frame
-- `perform` over the method of the same name of `*amqp.Channel`; a failed method returns no queue.
use eamqp.Base.{String, Bool, false, Option, none, some, Error, Result, ok, err}
use eamqp.Base.Int.{ℤ}
use eamqp.Amqp.Values.{Table, Queue}
use eamqp.Amqp.Raw.{Raw, exchange_declared, queue_declared, queue_bound, Log}
use eamqp.Channel.{Channel, ClientView, perform, log_entry}

module _ {S : Type 0} (raw : Raw S) where
  -- Log what has succeeded.
  unfoldable pub logged : Option ClientView → Log → Option Error × S → Option Error × S
  logged client entry (none, s) = (none, log_entry raw client entry s)
  logged client entry (some e, s) = (some e, s)

  unfoldable pub logged_queue : Option ClientView → Result Queue × S → Result Queue × S
  logged_queue client (ok q, s) = (ok q, log_entry raw client (queue_declared q) s)
  logged_queue client (err e, s) = (err e, s)

  unfoldable pub exchange_declare :
      String
      → String
      → Bool
      → Bool
      → Bool
      → Bool
      → Table
      → Channel S
      → S
      → Option Error × Channel S × S
  exchange_declare name kind durable auto_delete internal no_wait args ch s =
      perform some false
        (λ c t.
          logged ch.client (exchange_declared name kind durable)
            (raw.exchange_declare c name kind durable auto_delete internal no_wait args t))
        ch s

  unfoldable pub exchange_declare_passive :
      String
      → String
      → Bool
      → Bool
      → Bool
      → Bool
      → Table
      → Channel S
      → S
      → Option Error × Channel S × S
  exchange_declare_passive name kind durable auto_delete internal no_wait args ch s =
      perform some false
        (λ c. raw.exchange_declare_passive c name kind durable auto_delete internal no_wait args) ch
        s

  unfoldable pub exchange_delete :
      String → Bool → Bool → Channel S → S → Option Error × Channel S × S
  exchange_delete name if_unused no_wait ch s =
      perform some false (λ c. raw.exchange_delete c name if_unused no_wait) ch s

  unfoldable pub exchange_bind :
      String → String → String → Bool → Table → Channel S → S → Option Error × Channel S × S
  exchange_bind destination key source no_wait args ch s =
      perform some false (λ c. raw.exchange_bind c destination key source no_wait args) ch s

  unfoldable pub exchange_unbind :
      String → String → String → Bool → Table → Channel S → S → Option Error × Channel S × S
  exchange_unbind destination key source no_wait args ch s =
      perform some false (λ c. raw.exchange_unbind c destination key source no_wait args) ch s

  unfoldable pub queue_declare :
      String → Bool → Bool → Bool → Bool → Table → Channel S → S → Result Queue × Channel S × S
  queue_declare name durable auto_delete exclusive no_wait args ch s =
      perform err false
        (λ c t.
          logged_queue ch.client
            (raw.queue_declare c name durable auto_delete exclusive no_wait args t))
        ch s

  unfoldable pub queue_declare_passive :
      String → Bool → Bool → Bool → Bool → Table → Channel S → S → Result Queue × Channel S × S
  queue_declare_passive name durable auto_delete exclusive no_wait args ch s =
      perform err false
        (λ c. raw.queue_declare_passive c name durable auto_delete exclusive no_wait args) ch s

  unfoldable pub queue_inspect : String → Channel S → S → Result Queue × Channel S × S
  queue_inspect name ch s = perform err false (λ c. raw.queue_inspect c name) ch s

  unfoldable pub queue_bind :
      String → String → String → Bool → Table → Channel S → S → Option Error × Channel S × S
  queue_bind name key exchange no_wait args ch s =
      perform some false
        (λ c t.
          logged ch.client (queue_bound name key exchange)
            (raw.queue_bind c name key exchange no_wait args t))
        ch s

  unfoldable pub queue_unbind :
      String → String → String → Table → Channel S → S → Option Error × Channel S × S
  queue_unbind name key exchange args ch s =
      perform some false (λ c. raw.queue_unbind c name key exchange args) ch s

  unfoldable pub queue_purge : String → Bool → Channel S → S → Result ℤ × Channel S × S
  queue_purge name no_wait ch s = perform err false (λ c. raw.queue_purge c name no_wait) ch s

  unfoldable pub queue_delete :
      String → Bool → Bool → Bool → Channel S → S → Result ℤ × Channel S × S
  queue_delete name if_unused if_empty no_wait ch s =
      perform err false (λ c. raw.queue_delete c name if_unused if_empty no_wait) ch s
