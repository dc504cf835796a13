-- ===== src/Amqp/Raw.antt =====
-- The methods of `*amqp.Channel` that the code calls, and the logger, the metrics collector, the clock
-- and the tracer, as one interface over the outside state `S`.
use eamqp.Base.{ℕ, String, Bool, Option, Error, Result}
use eamqp.Base.Int.{ℤ}
use eamqp.Amqp.Values.{Table, Publishing, Queue, Delivery}

-- What the code logs, by its message.
pub data Log : Type 0 where
  exchange_declared : String → String → Bool → Log
  queue_declared : Queue → Log
  queue_bound : String → String → String → Log
  publish_failed : String → String → Error → Log
  published : String → String → ℕ → ℕ → Log
  consumer_started : String → String → Bool → Log
  consumer_cancelled : String → Log

-- What the code records with a MetricsCollector.
pub data Metric : Type 0 where
  connection : Bool → Metric
  connection_error : Metric
  channel_acquired channel_returned : Metric
  message_published : ℕ → Metric
  message_confirmed message_nacked : Metric
  message_consumed : ℕ → Metric
  publish_latency consume_latency : ℕ → Metric

-- A method that returns only an error has the result `Option Error`. `start_trace` is etrace's Start
-- where a tracer is registered, and `tracer_registered` says whether one is.
pub record Raw (S : Type 0) : Type 0 where
  pub close : ℕ → S → Option Error × S
  pub is_closed : ℕ → S → Bool
  pub exchange_declare :
      ℕ → String → String → Bool → Bool → Bool → Bool → Table → S → Option Error × S
  pub exchange_declare_passive :
      ℕ → String → String → Bool → Bool → Bool → Bool → Table → S → Option Error × S
  pub exchange_delete : ℕ → String → Bool → Bool → S → Option Error × S
  pub exchange_bind : ℕ → String → String → String → Bool → Table → S → Option Error × S
  pub exchange_unbind : ℕ → String → String → String → Bool → Table → S → Option Error × S
  pub queue_declare : ℕ → String → Bool → Bool → Bool → Bool → Table → S → Result Queue × S
  pub queue_declare_passive : ℕ → String → Bool → Bool → Bool → Bool → Table → S → Result Queue × S
  pub queue_inspect : ℕ → String → S → Result Queue × S
  pub queue_bind : ℕ → String → String → String → Bool → Table → S → Option Error × S
  pub queue_unbind : ℕ → String → String → String → Table → S → Option Error × S
  pub queue_purge : ℕ → String → Bool → S → Result ℤ × S
  pub queue_delete : ℕ → String → Bool → Bool → Bool → S → Result ℤ × S
  pub publish : ℕ → String → String → Bool → Bool → Publishing → S → Option Error × S
  pub publish_with_context :
      ℕ → ℕ → String → String → Bool → Bool → Publishing → S → Option Error × S
  pub publish_with_deferred_confirm :
      ℕ → ℕ → String → String → Bool → Bool → Publishing → S → Result (Option ℕ) × S
  pub consume : ℕ → String → String → Bool → Bool → Bool → Bool → Table → S → Result ℕ × S
  pub consume_with_context :
      ℕ → ℕ → String → String → Bool → Bool → Bool → Bool → Table → S → Result ℕ × S
  pub cancel : ℕ → String → Bool → S → Option Error × S
  pub get : ℕ → String → Bool → S → Result (Option Delivery) × S
  pub qos : ℕ → ℤ → ℤ → Bool → S → Option Error × S
  pub flow : ℕ → Bool → S → Option Error × S
  pub tx : ℕ → S → Option Error × S
  pub tx_commit : ℕ → S → Option Error × S
  pub tx_rollback : ℕ → S → Option Error × S
  pub confirm : ℕ → Bool → S → Option Error × S
  pub get_next_publish_seq_no : ℕ → S → ℕ × S
  pub ack : ℕ → ℕ → Bool → S → Option Error × S
  pub nack : ℕ → ℕ → Bool → Bool → S → Option Error × S
  pub reject : ℕ → ℕ → Bool → S → Option Error × S
  pub recover : ℕ → Bool → S → Option Error × S
  pub notify_close : ℕ → S → ℕ × S
  pub notify_flow : ℕ → S → ℕ × S
  pub notify_return : ℕ → S → ℕ × S
  pub notify_cancel : ℕ → S → ℕ × S
  pub notify_publish : ℕ → S → ℕ × S
  pub notify_confirm : ℕ → ℕ → ℕ → S → S
  pub closed_go_channel : S → ℕ × S
  pub close_go_channel : ℕ → S → S
  pub log : Log → S → S
  pub record_metric : Metric → S → S
  pub now : S → ℕ
  pub tracer_registered : S → Bool
  pub start_trace : ℕ → Table → S → ℕ × Table × S
  pub end_trace : ℕ → S → S
