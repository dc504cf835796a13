-- ===== src/Consumer/Timed.antt =====
-- consumer.go, ConsumeWithTimeout: what becomes of each delivery.
use mathlib.Core.List.{append-nil, append_assoc}
use eamqp.Base.{
  ℕ, ◌≡◌, sym, ap, ◌∙◌, Bool, true, false, Option, none, some, List, [], ◌∷◌, ◌++◌, Error,
}
use eamqp.Amqp.Values.{Delivery}
use eamqp.Consumer.{Acknowledger, settle, settle_timed, handle_timed}

-- Whether the handler has ended before the timeout, without an error.
abbrev pub succeeds : Option (Option Error) → Bool
succeeds none = false
succeeds (some none) = true
succeeds (some (some e)) = false

-- `settled` lists the tags with which Ack has been called, with true, or Nack with requeue, with false,
-- whatever became of the call. The handler ends in time and without an error exactly on the deliveries that `good` names, and
-- acknowledges nothing.
pub record TimedBooks {S : Type 0} (acks : Acknowledger S)
    (timed : Delivery → S → Option (Option Error) × S) (settled : S → List (ℕ × Bool))
    (good : Delivery → Bool) : Type 0 where
  pub acked :
      (d : Delivery) (s : S) → settled (acks.ack d false s) ≡ settled s ++ (d.tag, true) ∷ []
  pub nacked :
      (d : Delivery) (s : S) → settled (acks.nack d false true s) ≡ settled s ++ (d.tag, false) ∷ []
  pub handles : (d : Delivery) (s : S) → settled (timed d s).1 ≡ settled s
  pub succeeds_on : (d : Delivery) (s : S) → succeeds (timed d s).0 ≡ good d

abbrev pub outcomes : (Delivery → Bool) → List Delivery → List (ℕ × Bool)
outcomes good [] = []
outcomes good (d ∷ ds) = (d.tag, good d) ∷ outcomes good ds

module _ {S : Type 0} (acks : Acknowledger S) (timed : Delivery → S → Option (Option Error) × S)
    (settled : S → List (ℕ × Bool)) (good : Delivery → Bool)
    (books : TimedBooks acks timed settled good) where
  settle_timed-settled :
      (d : Delivery) (r : Option (Option Error) × S)
      → succeeds r.0 ≡ good d
      → settled (settle_timed acks false d r) ≡ settled r.1 ++ (d.tag, good d) ∷ []
  unfolding settle_timed settle
  settle_timed-settled d (none, s) h = rw (← h) (books.nacked d s)
  settle_timed-settled d (some none, s) h = rw (← h) (books.acked d s)
  settle_timed-settled d (some (some e), s) h = rw (← h) (books.nacked d s)

  -- With manual acknowledgement, ConsumeWithTimeout calls Ack or Nack exactly once for each delivery, in
  -- the order of arrival: Ack if its handler has ended in time and without an error, and Nack with
  -- requeue if it has failed or the timeout came first.
  pub handle_timed-settled :
      (ds : List Delivery) (s : S)
      → settled (handle_timed acks false timed ds s) ≡ settled s ++ outcomes good ds
  unfolding handle_timed
  handle_timed-settled [] s = sym (append-nil (settled s))
  handle_timed-settled (d ∷ ds) s =
      let one = settle_timed-settled d (timed d s) (books.succeeds_on d s) in
      handle_timed-settled ds (settle_timed acks false d (timed d s))
      ∙ ap (λ l. l ++ outcomes good ds) one
      ∙ append_assoc (settled (timed d s).1) ((d.tag, good d) ∷ []) (outcomes good ds)
      ∙ ap (λ l. l ++ (d.tag, good d) ∷ outcomes good ds) (books.handles d s)
