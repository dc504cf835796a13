-- ===== src/Producer/Confirms.antt =====
-- producer.go: when a publish with confirms on returns nil.
use eamqp.Base.{ℕ, ◌≡◌, refl, String, Bool, true, false, Option, none, some, Result, ok, err, arith}
use eamqp.Base.Int.{ℤ}
use eamqp.Amqp.Values.{Publishing}
use eamqp.Amqp.Raw.{Raw}
use eamqp.Channel.{Channel, ClientView}
use eamqp.Channel.Publish
use eamqp.Producer.{
  Producer, Settled, Wait, confirmed, cancelled, timed_out, settle, await, publish_with_options,
}

module _ {S : Type 0} (raw : Raw S) (wait : Wait S) where
  -- The broker has acknowledged the message that this result of a publish is about.
  abbrev pub IsAcked : ℤ → Result (Option ℕ) × Channel S × S → Type 0
  IsAcked timeout r =
      (c : ℕ) × (tag : ℕ) × (r.0 ≡ ok (some c))
      × ((wait Publish.background c timeout r.2).0 ≡ confirmed true tag)

  settle-none :
      (client : Option ClientView) (q : Settled × S)
      → (settle raw wait client q).0 ≡ none
      → (tag : ℕ) × (q.0 ≡ confirmed true tag)
  unfolding settle
  settle-none client (confirmed true tag, s) h = (tag, refl)
  settle-none client (confirmed false tag, s) h = ground arith
  settle-none client (cancelled e, s) h = ground arith
  settle-none client (timed_out, s) h = ground arith

  settle-acked :
      (client : Option ClientView) (q : Settled × S) (tag : ℕ)
      → q.0 ≡ confirmed true tag
      → (settle raw wait client q).0 ≡ none
  unfolding settle
  settle-acked client (confirmed true tag, s) t h = refl
  settle-acked client (confirmed false tag, s) t h = ground arith
  settle-acked client (cancelled e, s) t h = ground arith
  settle-acked client (timed_out, s) t h = ground arith

  await-none :
      (timeout : ℤ) (r : Result (Option ℕ) × Channel S × S)
      → (await raw wait Publish.background timeout r).0 ≡ none
      → IsAcked timeout r
  unfolding await
  await-none timeout (err e, ch, s) h = ground arith
  await-none timeout (ok none, ch, s) h = ground arith
  await-none timeout (ok (some c), ch, s) h =
      let (tag, e) = settle-none ch.client (wait Publish.background c timeout s) h in
      (c, tag, refl, e)

  await-acked :
      (timeout : ℤ) (r : Result (Option ℕ) × Channel S × S)
      → IsAcked timeout r
      → (await raw wait Publish.background timeout r).0 ≡ none
  unfolding await
  await-acked timeout (err e, ch, s) (c, tag, eq, a) = ground arith
  await-acked timeout (ok none, ch, s) (c, tag, eq, a) = ground arith
  await-acked timeout (ok (some d), ch, s) (c, tag, eq, a) =
      let same : d ≡ c = ground arith in
      settle-acked ch.client (wait Publish.background d timeout s) tag (rw same a)

  -- With confirms on, a publish returns nil exactly if the channel has taken the message with a
  -- deferred confirmation, and the wait for it has ended in a positive acknowledgement by the broker:
  -- never after a nack, a timeout, or an error of the publish itself.
  pub publish_with_options-IsAcked :
      (exchange key : String) (mandatory immediate : Bool) (msg : Publishing) (ch : Channel S)
      (p : Producer S) (s : S)
      → p.channel ≡ some ch
      → p.enabled ≡ true
      → let r =
          Publish.publish_with_deferred_confirm raw exchange key mandatory immediate msg ch s in
        let e = (publish_with_options raw wait exchange key mandatory immediate msg p s).0 in
        (e ≡ none → IsAcked p.timeout r) × (IsAcked p.timeout r → e ≡ none)
  unfolding publish_with_options
  publish_with_options-IsAcked exchange key mandatory immediate msg ch p s hc he =
      let r = Publish.publish_with_deferred_confirm raw exchange key mandatory immediate msg ch s in
      simp (hc, he) (await-none p.timeout r, await-acked p.timeout r)
