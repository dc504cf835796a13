-- ===== src/Channel.antt =====
-- channel.go, type Channel: the wrapper of one raw channel, its life cycle, and the frame that all
-- its methods share.
pub mod Topology
pub mod Publish
pub mod Messages
pub mod Notify
pub mod Calls
pub mod Session
pub mod Quiet
pub mod Leased
pub mod Beside
pub mod Refusal
pub mod Lifecycle
pub mod Accounts
pub mod Ownership
use eamqp.Base.{
  ℕ, ◌+◌, ◌-◌, Bool, true, false, ◌&&◌, ◌||◌, Option, none, some, Error, Result, ok, err,
  channel_closed, if◌then◌else◌,
}
use eamqp.Amqp.Raw.{Raw, Log, Metric}

-- What a channel sees of its client: GetLogger and GetMetrics are not nil, and traceEnabled.
pub record ClientView : Type 0 where
  pub has_logger : Bool
  pub has_metrics : Bool
  pub trace_enabled : Bool

-- `release` and `discard` are the callbacks of a pooled channel, over the outside state; `inflight` is
-- the wait group's counter.
pub record Channel (S : Type 0) : Type 0 where
  pub amqp_ch : Option ℕ
  pub client : Option ClientView
  pub release : Option (S → S)
  pub discard : Option (S → S)
  pub stateful : Bool
  pub closing : Bool
  pub inflight : ℕ

-- What Close has taken out of the channel and deals with once nothing is in flight.
pub record Closing (S : Type 0) : Type 0 where
  pub raw : ℕ
  pub on_release : Option (S → S)
  pub on_discard : Option (S → S)
  pub was_stateful : Bool

-- How a raw channel is given up.
pub data Disposal : Type 0 where
  released discarded closed : Disposal

-- Without a client, tracing is on.
pub trace_enabled : Option ClientView → Bool
trace_enabled none = true
trace_enabled (some v) = v.trace_enabled

module _ {S : Type 0} where
  unfoldable pub new_channel : ℕ → Option ClientView → Channel S
  new_channel c client = record {
    amqp_ch = some c;
    client = client;
    release = none;
    discard = none;
    stateful = false;
    closing = false;
    inflight = 0;
  }

  unfoldable pub new_channel_with_release : ℕ → Option ClientView → (S → S) → (S → S) → Channel S
  new_channel_with_release c client release discard = record {
    amqp_ch = some c;
    client = client;
    release = some release;
    discard = some discard;
    stateful = false;
    closing = false;
    inflight = 0;
  }

  raw_of : Option ℕ → Channel S → Channel S
  raw_of none ch = ch
  raw_of (some c) ch = record ch { stateful = true }

  -- RawChannel counts as stateful use.
  unfoldable pub raw_channel : Channel S → Option ℕ × Channel S
  unfolding raw_of
  raw_channel ch = (ch.amqp_ch, raw_of ch.amqp_ch ch)

  unfoldable pub enter : Option ℕ → Bool → Channel S → Result ℕ × Channel S
  enter none stateful ch = (err channel_closed, ch)
  enter (some c) stateful ch =
      if ch.closing
      then (err channel_closed, ch)
      else (ok c, record ch { stateful = stateful || ch.stateful; inflight = ch.inflight + 1 })

  unfoldable pub acquire_channel : Bool → Channel S → Result ℕ × Channel S
  unfolding enter
  acquire_channel stateful ch = enter ch.amqp_ch stateful ch

  -- ch.inflight.Done
  abbrev pub done : Channel S → Channel S
  done ch = record ch { inflight = ch.inflight - 1 }

  unfoldable pub take_out : Option ℕ → Channel S → Option (Closing S) × Channel S
  take_out none ch = (none, ch)
  take_out (some c) ch = (
    some (record {
      raw = c;
      on_release = ch.release;
      on_discard = ch.discard;
      was_stateful = ch.stateful;
    }),
    record ch { amqp_ch = none; release = none; discard = none; stateful = false; closing = true },
  )

  -- The critical section of Close; `none` where the channel is closed already.
  unfoldable pub close_section : Channel S → Option (Closing S) × Channel S
  unfolding take_out
  close_section ch = take_out ch.amqp_ch ch

  -- What Close does after the wait, by the callbacks that the channel had.
  unfoldable pub dispose :
      Raw S → Closing S → Option (S → S) → Option (S → S) → S → Disposal × Option Error × S
  dispose raw k none d s = let (e, s') = raw.close k.raw s in (closed, e, s')
  dispose raw k (some release) (some discard) s =
      if k.was_stateful then (discarded, none, discard s) else (released, none, release s)
  dispose raw k (some release) none s = (released, none, release s)

  unfoldable pub finish_close : Raw S → Closing S → S → Disposal × Option Error × S
  unfolding dispose
  finish_close raw k s = dispose raw k k.on_release k.on_discard s

  close_taken : Raw S → Option (Closing S) × Channel S → S → Option Error × Channel S × S
  close_taken raw (none, ch) s = (none, ch, s)
  close_taken raw (some k, ch) s = let (d, e, s') = finish_close raw k s in (e, ch, s')

  -- Close where nothing is in flight.
  unfoldable pub close : Raw S → Channel S → S → Option Error × Channel S × S
  unfolding close_taken close_section finish_close
  close raw ch s = close_taken raw (close_section ch) s

  pub is_closed : Raw S → Channel S → S → Bool
  is_closed raw ch s = elim ch.amqp_ch [ none ↦ true | some c ↦ raw.is_closed c s ]

  abbrev pub finished {ℓ} : {A : Type ℓ} → A × S → Channel S → A × Channel S × S
  finished (a, s) ch = (a, done ch, s)

  entered {ℓ} :
      {A : Type ℓ} → (Error → A) → Result ℕ × Channel S → (ℕ → S → A × S) → S → A × Channel S × S
  entered fail (err e, ch) body s = (fail e, ch, s)
  entered fail (ok c, ch) body s = finished (body c s) ch

  -- The frame of every method: acquireChannel, the body on the raw channel, and the deferred Done.
  -- `fail` makes the method's result from acquireChannel's error.
  unfoldable pub perform {ℓ} :
      {A : Type ℓ} → (Error → A) → Bool → (ℕ → S → A × S) → Channel S → S → A × Channel S × S
  unfolding entered acquire_channel
  perform fail stateful body ch s = entered fail (acquire_channel stateful ch) body s

  -- if ch.client != nil { if log := ch.client.GetLogger(); log != nil { … } }
  unfoldable pub log_entry : Raw S → Option ClientView → Log → S → S
  log_entry raw none entry s = s
  log_entry raw (some v) entry s = if v.has_logger then raw.log entry s else s

  unfoldable pub record_metric : Raw S → Option ClientView → Metric → S → S
  record_metric raw none m s = s
  record_metric raw (some v) m s = if v.has_metrics then raw.record_metric m s else s
