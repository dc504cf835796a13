-- ===== src/Channel/Quiet.antt =====
-- channel.go: what Cancel and Close leave as it is outside, where the calls that they make leave it.
use eamqp.Base.{
  ℕ, String, ◌≡◌, refl, Bool, false, Option, none, some, Error, Bool-cases, inl, inr, Option-cases,
  ◌∙◌,
}
use eamqp.Amqp.Raw.{Raw, Log, consumer_cancelled}
use eamqp.Channel.{
  Channel, ClientView, Closing, entered, perform, acquire_channel, enter, close, close_section,
  close_taken, take_out, finish_close, dispose, log_entry,
}
use eamqp.Channel.Topology.{logged}
use eamqp.Channel.Messages.{cancel}

module _ {S B : Type 0} (raw : Raw S) (seen : S → B) where
  -- `seen` is the same after the call.
  abbrev pub Keeps : (S → S) → Type 0
  Keeps f = (s : S) → seen (f s) ≡ seen s

  abbrev pub CallbackKeeps : Option (S → S) → Type 0
  CallbackKeeps none = Unit {0}
  CallbackKeeps (some f) = Keeps f

  -- The channel's callbacks keep it.
  abbrev pub IsQuiet : Channel S → Type 0
  IsQuiet ch = CallbackKeeps ch.release × CallbackKeeps ch.discard

  -- No method changes the callbacks.
  pub perform-IsQuiet {ℓ} :
      {A : Type ℓ} (fail : Error → A) (stateful : Bool) (body : ℕ → S → A × S) (ch : Channel S)
      (s : S)
      → IsQuiet ch
      → IsQuiet (perform fail stateful body ch s).1
  unfolding perform entered acquire_channel enter
  perform-IsQuiet fail stateful body ch s q = elim (Option-cases ch.amqp_ch) [
    | inl gone ↦ rw gone q
    | inr (c, there) ↦ elim (Bool-cases ch.closing) [
      | inl shut ↦ rw (there, shut) q
      | inr live ↦ rw (there, live) q
    ]
  ]

  pub record Quiet : Type 0 where
    pub cancels :
        (c : ℕ) (tag : String) (no_wait : Bool) → Keeps (λ s. (raw.cancel c tag no_wait s).1)
    pub closes : (c : ℕ) → Keeps (λ s. (raw.close c s).1)
    pub logs : (entry : Log) → Keeps (raw.log entry)

  module _ (quiet : Quiet) where
    log_entry-Keeps : (v : Option ClientView) (entry : Log) → Keeps (log_entry raw v entry)
    unfolding log_entry
    log_entry-Keeps none entry s = refl
    log_entry-Keeps (some v) entry s = elim (Bool-cases v.has_logger) [
      | inl on ↦ rw on (quiet.logs entry s)
      | inr off ↦ rw off refl
    ]

    cancel_body :
        (v : Option ClientView) (entry : Log) (r : Option Error × S)
        → seen (logged raw v entry r).1 ≡ seen r.1
    unfolding logged
    cancel_body v entry (none, s) = log_entry-Keeps v entry s
    cancel_body v entry (some e, s) = refl

    pub cancel-IsQuiet :
        (tag : String) (ch : Channel S) (s : S)
        → IsQuiet ch
        → (seen (cancel raw tag false ch s).2 ≡ seen s) × IsQuiet (cancel raw tag false ch s).1
    unfolding cancel perform entered acquire_channel
    cancel-IsQuiet tag ch s q = elim (Option-cases ch.amqp_ch) [
      | inl gone ↦ rw gone (refl, q)
      | inr (c, there) ↦ elim (Bool-cases ch.closing) [
        | inl shut ↦ rw (there, shut) (refl, q)
        | inr live ↦
            let log = cancel_body ch.client (consumer_cancelled tag) (raw.cancel c tag false s) in
            rw (there, live) (log ∙ quiet.cancels c tag false s, q)
      ]
    ]

    dispose-Keeps :
        (k : Closing S) (release discard : Option (S → S)) (s : S)
        → CallbackKeeps release
        → CallbackKeeps discard
        → seen (dispose raw k release discard s).2 ≡ seen s
    unfolding dispose
    dispose-Keeps k none d s p q = quiet.closes k.raw s
    dispose-Keeps k (some f) none s p q = p s
    dispose-Keeps k (some f) (some g) s p q = elim (Bool-cases k.was_stateful) [
      | inl used ↦ rw used (q s)
      | inr unused ↦ rw unused (p s)
    ]

    pub close-IsQuiet :
        (ch : Channel S) (s : S)
        → IsQuiet ch
        → (seen (close raw ch s).2 ≡ seen s) × IsQuiet (close raw ch s).1
    unfolding close close_taken close_section take_out finish_close
    close-IsQuiet ch s q = elim (Option-cases ch.amqp_ch) [
      | inl gone ↦ rw gone (refl, q)
      | inr (c, there) ↦
          let k : Closing S = record {
            raw = c;
            on_release = ch.release;
            on_discard = ch.discard;
            was_stateful = ch.stateful;
          } in
          rw there (dispose-Keeps k ch.release ch.discard s q.0 q.1, (tt, tt))
    ]
