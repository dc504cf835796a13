-- ===== src/Consumer/Workers.antt =====
-- consumer.go, ConsumeWithWorkers: the workers and the goroutine that waits for the context, in any
-- interleaving.
pub mod Measures
pub mod Totals
pub mod Once
use eamqp.Base.{
  ℕ, zero, suc, String, Bool, true, false, Option, none, some, List, [], ◌∷◌, ◌++◌, Error, Result,
  ok, err, workers_timeout, if◌then◌else◌, get_elem?, set, replicate,
}
use eamqp.Base.Int.{ℤ, pos, negsuc}
use eamqp.Amqp.Values.{Delivery}
use eamqp.Amqp.Raw.{Raw}
use eamqp.Channel.{close}
use eamqp.Channel.Messages
use eamqp.Consumer.{Acknowledger, Handler, Consumer, settle, consume}

-- A worker waits for a delivery, runs the handler on one, has the handler's result and is about to
-- settle, or has left its loop.
pub data Worker : Type 0 where
  ready : Worker
  handling : Delivery → Worker
  settling : Delivery → Option Error → Worker
  stopped : Worker

-- The calling goroutine: waiting for the context; about to cancel; about to close the channel; in the
-- last select, with what it is to return; returned.
pub data Caller : Type 0 where
  waiting cancelling : Caller
  closing : Option Error → Caller
  joining : Option Error → Caller
  returned : Option Error → Caller

-- `queue` and `ended` are the Go channel of deliveries; `arrived` is all that has ever been in it.
pub record Work (S : Type 0) : Type 0 where
  pub queue : List Delivery
  pub ended : Bool
  pub workers : List Worker
  pub caller : Caller
  pub done : Bool
  pub consumer : Consumer S
  pub world : S
  pub arrived : List Delivery

-- A delivery arrives; the deliveries end; the context is done; a worker goes on; the caller goes on;
-- the shutdown timeout is over.
pub data Event : Type 0 where
  arrives : Delivery → Event
  ends : Event
  cancels : Event
  works : ℕ → Event
  proceeds : Event
  times_out : Event

abbrev pub all_stopped : List Worker → Bool
all_stopped [] = true
all_stopped (stopped ∷ ws) = all_stopped ws
all_stopped (w ∷ ws) = false

-- if numWorkers <= 0 { numWorkers = 1 }
abbrev pub worker_count : ℤ → ℕ
worker_count (pos zero) = 1
worker_count (pos (suc n)) = suc n
worker_count (negsuc n) = 1

module _ {S : Type 0} where
  -- for delivery := range deliveries
  unfoldable pub receive : ℕ → List Delivery → Work S → Work S
  receive i (d ∷ rest) s = record s { queue = rest; workers = set s.workers i (handling d) }
  receive i [] s = if s.ended then record s { workers = set s.workers i stopped } else s

  unfoldable pub arrive : Delivery → Work S → Work S
  arrive d s =
      if s.ended then s else record s { queue = s.queue ++ d ∷ []; arrived = s.arrived ++ d ∷ [] }

  -- The caller and its workers, once the consumer has been started.
  unfoldable pub begin_work : ℤ → Result ℕ × Consumer S × S → Work S
  begin_work workers (err e, c, s) = record {
    queue = [];
    ended = true;
    workers = [];
    caller = returned (some e);
    done = false;
    consumer = c;
    world = s;
    arrived = [];
  }
  begin_work workers (ok deliveries, c, s) = record {
    queue = [];
    ended = false;
    workers = replicate (worker_count workers) ready;
    caller = waiting;
    done = false;
    consumer = c;
    world = s;
    arrived = [];
  }

module _ {S : Type 0} (raw : Raw S) (acks : Acknowledger S) (handler : Handler S)
    (tag : String) where
  unfoldable pub work : ℕ → Option Worker → Work S → Work S
  unfolding receive
  work i (some ready) s = receive i s.queue s
  work i (some (handling d)) s =
      let (r, w) = handler d s.world in
      record s { workers = set s.workers i (settling d r); world = w }
  work i (some (settling d r)) s = record s {
    workers = set s.workers i ready;
    world = settle acks s.consumer.opts.auto_ack d (r, s.world);
  }
  work i _ s = s

  unfoldable pub proceed : Caller → Work S → Work S
  proceed waiting s = if s.done then record s { caller = cancelling } else s
  proceed cancelling s =
      let (e, ch, w) = Messages.cancel raw tag false s.consumer.channel s.world in
      record s { caller = closing e; consumer = record s.consumer { channel = ch }; world = w }
  proceed (closing e₁) s =
      let (e₂, ch, w) = close raw s.consumer.channel s.world in
      record s {
        caller = joining (elim e₁ [ some e ↦ some e | none ↦ e₂ ]);
        consumer = record s.consumer { channel = ch };
        world = w;
      }
  proceed (joining e) s = if all_stopped s.workers then record s { caller = returned e } else s
  proceed (returned e) s = s

  unfoldable pub time_out : Caller → Work S → Work S
  time_out (joining e) s = record s { caller = returned (some workers_timeout) }
  time_out _ s = s

  unfoldable pub happen : Event → Work S → Work S
  unfolding work proceed time_out arrive
  happen (arrives d) s = arrive d s
  happen ends s = record s { ended = true }
  happen cancels s = record s { done = true }
  happen (works i) s = work i (get_elem? s.workers i) s
  happen proceeds s = proceed s.caller s
  happen times_out s = time_out s.caller s

  unfoldable pub run : List Event → Work S → Work S
  unfolding happen
  run [] s = s
  run (e ∷ es) s = run es (happen e s)

  unfoldable pub consume_with_workers : ℤ → List Event → Consumer S → S → Work S
  unfolding begin_work run
  consume_with_workers workers events c s = run events (begin_work workers (consume raw tag c s))
