-- ===== src/Channel/Leased.antt =====
-- channel.go: a pooled channel in use, from its lease to its Close. `seen` is anything outside that
-- only the two callbacks change.
use eamqp.Base.{ℕ, ◌≡◌, refl, ap, Bool, true, false, ◌||◌, Option, some, Error, if◌then◌else◌}
use eamqp.Amqp.Raw.{Raw}
use eamqp.Channel.{
  Channel, ClientView, perform, entered, acquire_channel, enter, close, close_taken, close_section,
  take_out, finish_close, dispose, new_channel_with_release,
}

module _ {S : Type 0} (c : ℕ) (on_release on_discard : S → S) where
  -- The wrapper has the raw channel and its callbacks, and `used` says how Close will dispose of it.
  pub record Leased (used : Bool) (ch : Channel S) : Type 0 where
    pub has_raw : ch.amqp_ch ≡ some c
    pub releases : ch.release ≡ some on_release
    pub discards : ch.discard ≡ some on_discard
    pub live : ch.closing ≡ false
    pub marked : ch.stateful ≡ used

  pub new-Leased :
      (v : Option ClientView) → Leased false (new_channel_with_release c v on_release on_discard)
  unfolding new_channel_with_release
  new-Leased v = record {
    has_raw = refl;
    releases = refl;
    discards = refl;
    live = refl;
    marked = refl;
  }

  -- Any method leaves it leased.
  pub perform-Leased {ℓ} :
      {A : Type ℓ} {B : Type 0} (seen : S → B) (fail : Error → A) (stateful used : Bool)
      (body : ℕ → S → A × S) (ch : Channel S) (s : S)
      → ((t : S) → seen (body c t).1 ≡ seen t)
      → Leased used ch
      → (seen (perform fail stateful body ch s).2 ≡ seen s)
        × Leased (stateful || used) (perform fail stateful body ch s).1
  unfolding perform entered acquire_channel enter
  perform-Leased seen fail stateful used body ch s keeps l =
      rw (l.has_raw, l.live)
        (
          keeps s,
          record {
            has_raw = refl;
            releases = l.releases;
            discards = l.discards;
            live = refl;
            marked = ap (λ b. stateful || b) l.marked;
          },
        )

  -- Close calls the callback that the use demands, once, and nothing else.
  pub close-Leased :
      (raw : Raw S) (used : Bool) (ch : Channel S) (s : S)
      → Leased used ch
      → (close raw ch s).2 ≡ (if used then on_discard s else on_release s)
  unfolding close close_taken close_section take_out finish_close dispose
  close-Leased raw true ch s l = rw (l.has_raw, l.releases, l.discards, l.marked) refl
  close-Leased raw false ch s l = rw (l.has_raw, l.releases, l.discards, l.marked) refl
