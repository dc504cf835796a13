-- ===== src/Consumer/Settling.antt =====
-- consumer.go, ConsumeWithHandler: how often each delivery is acknowledged.
use mathlib.Core.List.{append-nil, append_assoc}
use eamqp.Base.{
  ℕ, ◌≡◌, refl, sym, ◌∙◌, Bool, true, false, not, Option, none, some, List, [], ◌∷◌, ◌++◌, Error,
}
use eamqp.Amqp.Values.{Delivery}
use eamqp.Consumer.{Acknowledger, Arrival, delivered, ended, Handler, settle, handle_all}

-- Whether a handler's result is an error.
abbrev pub is_error : Option Error → Bool
is_error none = false
is_error (some e) = true

abbrev pub deliver : List Delivery → List Arrival
deliver [] = ended ∷ []
deliver (d ∷ ds) = delivered d ∷ deliver ds

-- `settled` lists the tags that have been acknowledged, with true, or given back with requeue, with
-- false. The handler fails exactly on the deliveries that `fails` names, and acknowledges nothing.
pub record Books {S : Type 0} (acks : Acknowledger S) (handler : Handler S)
    (settled : S → List (ℕ × Bool)) (fails : Delivery → Bool) : Type 0 where
  pub acked :
      (d : Delivery) (s : S) → settled (acks.ack d false s) ≡ settled s ++ (d.tag, true) ∷ []
  pub nacked :
      (d : Delivery) (s : S) → settled (acks.nack d false true s) ≡ settled s ++ (d.tag, false) ∷ []
  pub handles : (d : Delivery) (s : S) → settled (handler d s).1 ≡ settled s
  pub fails_on : (d : Delivery) (s : S) → is_error (handler d s).0 ≡ fails d

-- What is to become of each delivery: its tag, and whether it is acknowledged.
abbrev pub verdicts : (Delivery → Bool) → List Delivery → List (ℕ × Bool)
verdicts fails [] = []
verdicts fails (d ∷ ds) = (d.tag, not (fails d)) ∷ verdicts fails ds

module _ {S : Type 0} (acks : Acknowledger S) (handler : Handler S) (settled : S → List (ℕ × Bool))
    (fails : Delivery → Bool) (books : Books acks handler settled fails) where
  pub settle-settled :
      (d : Delivery) (r : Option Error × S)
      → is_error r.0 ≡ fails d
      → settled (settle acks false d r) ≡ settled r.1 ++ (d.tag, not (fails d)) ∷ []
  unfolding settle
  settle-settled d (none, s) h = rw (← h) (books.acked d s)
  settle-settled d (some e, s) h = rw (← h) (books.nacked d s)

  -- With manual acknowledgement, ConsumeWithHandler settles each delivery exactly once, in the order
  -- of arrival: with an ack if its handler succeeded, with a nack and requeue if it failed. When the
  -- deliveries end it returns nil.
  pub handle_all-settled :
      (ds : List Delivery) (s : S)
      → let (r, s') = handle_all acks false handler (deliver ds) s in
        (r ≡ some none) × (settled s' ≡ settled s ++ verdicts fails ds)
  unfolding handle_all
  handle_all-settled [] s = (refl, sym (append-nil (settled s)))
  handle_all-settled (d ∷ ds) s =
      let s₁ = settle acks false d (handler d s) in
      let (r, rest) = handle_all-settled ds s₁ in
      let one = settle-settled d (handler d s) (books.fails_on d s) in
      let same = books.handles d s in
      let joined : settled s₁ ≡ settled s ++ (d.tag, not (fails d)) ∷ [] = one ∙ rw same refl in
      (
        r,
        rest
            ∙ rw joined
                (append_assoc (settled s) ((d.tag, not (fails d)) ∷ []) (verdicts fails ds)),
      )
