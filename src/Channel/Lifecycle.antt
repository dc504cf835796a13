-- ===== src/Channel/Lifecycle.antt =====
-- channel.go, Channel under concurrent use: goroutines that run methods and Close, interleaved at the
-- wrapper's critical sections, the wait group and the giving up of the raw channel.
use eamqp.Base.{
  ℕ, Bool, false, ◌||◌, Option, none, some, List, [], ◌∷◌, Result, ok, err, ◌==◌, if◌then◌else◌,
  get_elem?, set, replicate,
}
use eamqp.Amqp.Raw.{Raw}
use eamqp.Channel.{Channel, Closing, Disposal, acquire_channel, done, close_section, finish_close}

-- Where a goroutine stands: in no call; in the body of a method, on this raw channel; in Close's wait.
pub data Place (S : Type 0) : Type 0 where
  outside : Place S
  inside : ℕ → Place S
  waiting : Closing S → Place S

-- `disposals` is the list of what has been done with the raw channel, newest first, and `used` says
-- whether a method that marks the wrapper as stateful has been let in.
pub record System (S : Type 0) : Type 0 where
  pub channel : Channel S
  pub world : S
  pub places : List (Place S)
  pub disposals : List Disposal
  pub used : Bool

-- A goroutine enters a method, stateful or not; one leaves its method, which has changed the world;
-- one calls Close; one in Close's wait goes on, which it can only while nothing is in flight.
pub data Event (S : Type 0) : Type 0 where
  enters : ℕ → Bool → Event S
  leaves : ℕ → (S → S) → Event S
  closes : ℕ → Event S
  resumes : ℕ → Event S

module _ {S : Type 0} (raw : Raw S) where
  unfoldable pub entered : ℕ → Bool → Result ℕ × Channel S → System S → System S
  entered i stateful (err e, ch) s = record s { channel = ch }
  entered i stateful (ok c, ch) s = record s {
    channel = ch;
    places = set s.places i (inside c);
    used = stateful || s.used;
  }

  unfoldable pub taken : ℕ → Option (Closing S) × Channel S → System S → System S
  taken i (none, ch) s = record s { channel = ch }
  taken i (some k, ch) s = record s { channel = ch; places = set s.places i (waiting k) }

  unfoldable pub given_up : ℕ → Disposal × S → System S → System S
  given_up i (d, w) s = record s {
    world = w;
    places = set s.places i outside;
    disposals = d ∷ s.disposals;
  }

  unfoldable pub act : Event S → Option (Place S) → System S → System S
  act (enters i stateful) (some outside) s =
      entered i stateful (acquire_channel stateful s.channel) s
  act (leaves i f) (some (inside c)) s = record s {
    channel = done s.channel;
    world = f s.world;
    places = set s.places i outside;
  }
  act (closes i) (some outside) s = taken i (close_section s.channel) s
  act (resumes i) (some (waiting k)) s =
      let (d, e, w) = finish_close raw k s.world in
      if s.channel.inflight == 0 then given_up i (d, w) s else s
  act _ _ s = s

  abbrev pub who : Event S → ℕ
  who (enters i b) = i
  who (leaves i f) = i
  who (closes i) = i
  who (resumes i) = i

  unfoldable pub happen : Event S → System S → System S
  unfolding act entered taken given_up
  happen e s = act e (get_elem? s.places (who e)) s

  unfoldable pub run : List (Event S) → System S → System S
  unfolding happen
  run [] s = s
  run (e ∷ es) s = run es (happen e s)

-- A new wrapper and `k` goroutines.
unfoldable pub start : {S : Type 0} → Channel S → S → ℕ → System S
start ch w k = record {
  channel = ch;
  world = w;
  places = replicate k outside;
  disposals = [];
  used = false;
}
