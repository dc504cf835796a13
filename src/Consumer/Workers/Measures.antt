-- ===== src/Consumer/Workers/Measures.antt =====
-- consumer.go, ConsumeWithWorkers: what the workers hold, by a measure `f` of what can be settled.
use eamqp.Base.{
  ℕ, ◌+◌, ◌≤◌, ◌≡◌, refl, ap, Bool, true, false, not, Option, none, some, List, [], ◌∷◌, Error,
  arith, length, sum_by, sum_by-append, sum_by-le-length,
}
use eamqp.Amqp.Values.{Delivery}
use eamqp.Consumer.{Acknowledger, Handler, settle}
use eamqp.Consumer.Settling.{Books, is_error}
use eamqp.Consumer.Workers.{Worker, ready, handling, settling, stopped, all_stopped}

abbrev pub stops : Worker → ℕ
stops stopped = 1
stops ready = 0
stops (handling d) = 0
stops (settling d r) = 0

pub stops-le-1 : (w : Worker) → stops w ≤ 1
stops-le-1 stopped = omega arith
stops-le-1 ready = omega arith
stops-le-1 (handling d) = omega arith
stops-le-1 (settling d r) = omega arith

pub all_stopped-stops : (ws : List Worker) → all_stopped ws ≡ true → sum_by stops ws ≡ length ws
all_stopped-stops [] h = refl
all_stopped-stops (stopped ∷ ws) h = omega (arith, all_stopped-stops ws h)
all_stopped-stops (ready ∷ ws) h = ground arith
all_stopped-stops (handling d ∷ ws) h = ground arith
all_stopped-stops (settling d r ∷ ws) h = ground arith

module _ (fails : Delivery → Bool) (f : ℕ × Bool → ℕ) where
  -- What a delivery will come to when it is settled.
  abbrev pub owed : Delivery → ℕ
  owed d = f (d.tag, not (fails d))

  abbrev pub load : Worker → ℕ
  load ready = 0
  load (handling d) = owed d
  load (settling d r) = f (d.tag, not (is_error r))
  load stopped = 0

  pub load-stops : (ws : List Worker) → sum_by stops ws ≡ length ws → sum_by load ws ≡ 0
  load-stops [] h = refl
  load-stops (stopped ∷ ws) h = omega (arith, load-stops ws (omega arith))
  load-stops (ready ∷ ws) h = absurd (omega (arith, sum_by-le-length stops stops-le-1 ws))
  load-stops (handling d ∷ ws) h = absurd (omega (arith, sum_by-le-length stops stops-le-1 ws))
  load-stops (settling d r ∷ ws) h = absurd (omega (arith, sum_by-le-length stops stops-le-1 ws))

module _ {S : Type 0} (acks : Acknowledger S) (handler : Handler S) (settled : S → List (ℕ × Bool))
    (fails : Delivery → Bool) (books : Books acks handler settled fails) (f : ℕ × Bool → ℕ) where
  pub settle_once :
      (b : Bool) (d : Delivery) (r : Option Error) (w : S)
      → b ≡ false
      → sum_by f (settled (settle acks b d (r, w)))
        ≡ sum_by f (settled w) + f (d.tag, not (is_error r))
  unfolding settle
  settle_once true d r w h = ground arith
  settle_once false d none w h =
      omega
        (arith, ap (sum_by f) (books.acked d w), sum_by-append f (settled w) ((d.tag, true) ∷ []))
  settle_once false d (some e) w h =
      omega
        (arith, ap (sum_by f) (books.nacked d w), sum_by-append f (settled w) ((d.tag, false) ∷ []))
