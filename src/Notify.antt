-- ===== src/Notify.antt =====
-- pool.go and client.go, NotifyClose and NotifyBlocked: goroutines that forward the notifications of
-- several connections into one Go channel, and one that closes it after them, in any interleaving.
pub mod Order
pub mod Preserved
pub mod Forwarded
use eamqp.Base.{
  ℕ, ◌≡◌, Bool, true, false, ◌&&◌, Option, none, some, List, [], ◌∷◌, ◌++◌, length, get_elem?, set,
  ltb, ◌==◌, if◌then◌else◌,
}

-- A forwarding goroutine has not yet called NotifyClose or NotifyBlocked of its connection; reads from
-- what that call has given it; has something to send; or has left its loop.
pub data Place (E : Type 0) : Type 0 where
  starting : Place E
  reading : Place E
  holding : E → Place E
  finished : Place E

-- A connection's notifications: those not yet read, whether there will be more, its goroutine, all that
-- it has given since the goroutine has registered, and what it gave before, which nobody hears.
pub record Source (E : Type 0) : Type 0 where
  pub pending : List E
  pub ended : Bool
  pub place : Place E
  pub emitted : List E
  pub missed : List E

-- `buffer` and `closed` are the Go channel `out`, `received` what has been taken from it. Each entry
-- has the number of its connection beside it, which the code does not keep.
pub record Fan (E F : Type 0) : Type 0 where
  pub sources : List (Source E)
  pub capacity : ℕ
  pub buffer : List (ℕ × F)
  pub closed : Bool
  pub received : List (ℕ × F)

-- A connection gives a notification, or its last; a forwarding goroutine goes on; the one that closes
-- `out` goes on; the caller takes from `out`.
pub data Event (E : Type 0) : Type 0 where
  emits : ℕ → E → Event E
  ends : ℕ → Event E
  forwards : ℕ → Event E
  joins : Event E
  takes : Event E

abbrev pub is_finished : {E : Type 0} → Place E → Bool
is_finished finished = true
is_finished starting = false
is_finished reading = false
is_finished (holding e) = false

-- wg.Wait
abbrev pub all_finished : {E : Type 0} → List (Source E) → Bool
all_finished [] = true
all_finished (s ∷ ss) = is_finished s.place && all_finished ss

-- The goroutine registers only once it runs; for a connection that is nil there is none.
abbrev pub source_of : {E : Type 0} → Option ℕ → Source E
source_of (some conn) = record {
  pending = [];
  ended = false;
  place = starting;
  emitted = [];
  missed = [];
}
source_of none = record { pending = []; ended = true; place = finished; emitted = []; missed = [] }

abbrev pub sources_of : {E : Type 0} → List (Option ℕ) → List (Source E)
sources_of [] = []
sources_of (c ∷ cs) = source_of c ∷ sources_of cs

abbrev is_none : {E : Type 0} → List E → Bool
is_none [] = true
is_none (x ∷ xs) = false

-- The pool's NotifyClose and NotifyBlocked; without connections `out` is closed at once.
unfoldable pub notify_pool : {E F : Type 0} → List (Option ℕ) → Fan E F
notify_pool connections = record {
  sources = sources_of connections;
  capacity = length connections;
  buffer = [];
  closed = is_none connections;
  received = [];
}

-- The client's NotifyClose: one goroutine wraps what one Go channel gives, a connection's or the
-- pool's, which is there before the goroutine starts; without either, a closed Go channel.
unfoldable pub notify_client : {E F : Type 0} → Option ℕ → Fan E F
notify_client (some chan) = record {
  sources = record { pending = []; ended = false; place = reading; emitted = []; missed = [] } ∷ [];
  capacity = 1;
  buffer = [];
  closed = false;
  received = [];
}
notify_client none = record {
  sources = [];
  capacity = 0;
  buffer = [];
  closed = true;
  received = [];
}

module _ {E F : Type 0} (wrap : E → F) where
  -- What a connection gives goes to its listener, if that is registered.
  unfoldable pub hear : Place E → E → Source E → Source E
  hear starting e src = record src { missed = src.missed ++ e ∷ [] }
  hear reading e src = record src {
    pending = src.pending ++ e ∷ [];
    emitted = src.emitted ++ e ∷ [];
  }
  hear (holding x) e src = record src {
    pending = src.pending ++ e ∷ [];
    emitted = src.emitted ++ e ∷ [];
  }
  hear finished e src = record src {
    pending = src.pending ++ e ∷ [];
    emitted = src.emitted ++ e ∷ [];
  }

  -- Nothing comes after the last notification.
  unfoldable pub emit_unless : Bool → ℕ → E → Source E → Fan E F → Fan E F
  unfolding hear
  emit_unless true i e src s = s
  emit_unless false i e src s = record s { sources = set s.sources i (hear src.place e src) }

  unfoldable pub emit : ℕ → E → Option (Source E) → Fan E F → Fan E F
  unfolding emit_unless
  emit i e none s = s
  emit i e (some src) s = emit_unless src.ended i e src s

  unfoldable pub finish : ℕ → Option (Source E) → Fan E F → Fan E F
  finish i none s = s
  finish i (some src) s = record s { sources = set s.sources i (record src { ended = true }) }

  unfoldable pub leave_if : Bool → ℕ → Source E → Fan E F → Fan E F
  leave_if true i src s = record s { sources = set s.sources i (record src { place = finished }) }
  leave_if false i src s = s

  -- for err := range …: reads the next, or leaves the loop after the last.
  unfoldable pub read : ℕ → List E → Source E → Fan E F → Fan E F
  unfolding leave_if
  read i (e ∷ rest) src s = record s {
    sources = set s.sources i (record src { pending = rest; place = holding e });
  }
  read i [] src s = leave_if src.ended i src s

  -- out <- err, which waits while the buffer is full.
  unfoldable pub send : ℕ → E → Source E → Fan E F → Fan E F
  send i e src s =
      if ltb (length s.buffer) s.capacity
      then record s {
        sources = set s.sources i (record src { place = reading });
        buffer = s.buffer ++ (i, wrap e) ∷ [];
      }
      else s

  -- The goroutine registers with its connection; one that has ended closes the new Go channel at once.
  unfoldable pub register : ℕ → Source E → Fan E F → Fan E F
  register i src s = record s { sources = set s.sources i (record src { place = reading }) }

  unfoldable pub forward : ℕ → Place E → Source E → Fan E F → Fan E F
  unfolding read send register
  forward i starting src s = register i src s
  forward i reading src s = read i src.pending src s
  forward i (holding e) src s = send i e src s
  forward i finished src s = s

  unfoldable pub forward_at : ℕ → Option (Source E) → Fan E F → Fan E F
  unfolding forward
  forward_at i none s = s
  forward_at i (some src) s = forward i src.place src s

  unfoldable pub take_from : List (ℕ × F) → Fan E F → Fan E F
  take_from [] s = s
  take_from (x ∷ rest) s = record s { buffer = rest; received = s.received ++ x ∷ [] }

  unfoldable pub happen : Event E → Fan E F → Fan E F
  unfolding emit finish forward_at take_from
  happen (emits i e) s = emit i e (get_elem? s.sources i) s
  happen (ends i) s = finish i (get_elem? s.sources i) s
  happen (forwards i) s = forward_at i (get_elem? s.sources i) s
  happen joins s = if all_finished s.sources then record s { closed = true } else s
  happen takes s = take_from s.buffer s

  unfoldable pub run : List (Event E) → Fan E F → Fan E F
  unfolding happen
  run [] s = s
  run (e ∷ es) s = run es (happen e s)
