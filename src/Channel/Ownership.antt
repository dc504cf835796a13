-- ===== src/Channel/Ownership.antt =====
-- channel.go, Channel under concurrent use: the raw channel is given up once, by the right callback, and
-- never under a running method.
use eamqp.Base.{
  ℕ, ◌+◌, ◌≤◌, ◌<◌, ◌≡◌, refl, Bool, true, false, ◌||◌, Option, none, some, List, [], ◌∷◌, ◌==◌,
  if◌then◌else◌, Bool-cases, inl, inr, ok, err, channel_closed, arith, get_elem?, sum_by,
  sum_by-replicate, replicate, All,
}
use eamqp.Amqp.Raw.{Raw}
use eamqp.Channel.{
  ClientView, Closing, acquire_channel, done, close_section, finish_close, enter, take_out, dispose,
  new_channel_with_release,
}
use eamqp.Channel.Lifecycle.{
  Place, outside, inside, waiting, System, Event, enters, leaves, closes, resumes, entered, taken,
  given_up, act, who, happen, run, start,
}
use eamqp.Channel.Accounts.{
  in_method, in_wait, count_disposals, Fits, Inv, no_wait-Knows, Knows-set, Knows-at,
  no_disposals-Fits, move-Inv, Books-at,
}

module _ {S : Type 0} (r d : S → S) where
  module _ (raw : Raw S) where
    let_in-Inv :
        (i c : ℕ) (st : Bool) (s : System S)
        → s.channel.amqp_ch ≡ some c
        → get_elem? s.places i ≡ some outside
        → Inv r d s
        → Inv r d (
            entered raw i st
              (
                ok c,
                record s.channel {
                  stateful = st || s.channel.stateful;
                  inflight = s.channel.inflight + 1;
                },
              )
              s)
    unfolding entered
    let_in-Inv i c st s o e v =
        let b = Books-at r d s i outside e v in
        let used = st || s.used in
        move-Inv r d s i outside (inside c) _ s.world used s.disposals e
          (ground (arith, no_disposals-Fits r d used s.disposals))
          (Knows-set r d used s.places i (inside c)
            (no_wait-Knows r d used s.places (ground (arith, v.books))) tt)

    admitted-Inv :
        (shut : Bool) (i c : ℕ) (st : Bool) (s : System S)
        → s.channel.amqp_ch ≡ some c
        → get_elem? s.places i ≡ some outside
        → Inv r d s
        → Inv r d (
            entered raw i st
              (if shut then (err channel_closed, s.channel) else (
                ok c,
                record s.channel {
                  stateful = st || s.channel.stateful;
                  inflight = s.channel.inflight + 1;
                },
              ))
              s)
    unfolding entered
    admitted-Inv true i c st s o e v = v
    admitted-Inv false i c st s o e v = let_in-Inv i c st s o e v

    enter-Inv :
        (i : ℕ) (st : Bool) (s : System S) (o : Option ℕ)
        → s.channel.amqp_ch ≡ o
        → get_elem? s.places i ≡ some outside
        → Inv r d s
        → Inv r d (entered raw i st (enter o st s.channel) s)
    unfolding entered enter
    enter-Inv i st s none o e v = v
    enter-Inv i st s (some c) o e v = admitted-Inv s.channel.closing i c st s o e v

    enters-Inv :
        (i : ℕ) (st : Bool) (s : System S)
        → get_elem? s.places i ≡ some outside
        → Inv r d s
        → Inv r d (act raw (enters i st) (some outside) s)
    unfolding act acquire_channel
    enters-Inv i st s e v = enter-Inv i st s s.channel.amqp_ch refl e v

    leaves-Inv :
        (i c : ℕ) (f : S → S) (s : System S)
        → get_elem? s.places i ≡ some (inside c)
        → Inv r d s
        → Inv r d (act raw (leaves i f) (some (inside c)) s)
    unfolding act
    leaves-Inv i c f s e v =
        let b = Books-at r d s i (inside c) e v in
        move-Inv r d s i (inside c) outside (done s.channel) (f s.world) s.used s.disposals e
          (ground arith) (Knows-set r d s.used s.places i outside v.informed tt)

    take_out-Inv :
        (i : ℕ) (s : System S) (o : Option ℕ)
        → s.channel.amqp_ch ≡ o
        → get_elem? s.places i ≡ some outside
        → Inv r d s
        → Inv r d (taken raw i (take_out o s.channel) s)
    unfolding taken take_out
    take_out-Inv i s none o e v = v
    take_out-Inv i s (some c) o e v =
        let b = Books-at r d s i outside e v in
        move-Inv r d s i outside (waiting _) _ s.world s.used s.disposals e (ground arith)
          (Knows-set r d s.used s.places i (waiting _) v.informed (ground (arith, v.books)))

    closes-Inv :
        (i : ℕ) (s : System S)
        → get_elem? s.places i ≡ some outside
        → Inv r d s
        → Inv r d (act raw (closes i) (some outside) s)
    unfolding act close_section
    closes-Inv i s e v = take_out-Inv i s s.channel.amqp_ch refl e v

    resumes-Inv :
        (i : ℕ) (k : Closing S) (s : System S)
        → get_elem? s.places i ≡ some (waiting k)
        → Inv r d s
        → Inv r d (act raw (resumes i) (some (waiting k)) s)
    unfolding act given_up finish_close dispose
    resumes-Inv i k s e v =
        let b = Books-at r d s i (waiting k) e v in
        let knows = Knows-at r d s.used s.places i (waiting k) e v.informed in
        elim (Bool-cases (s.channel.inflight == 0)) [
          | inl idle ↦ rw idle (
              move-Inv r d s i (waiting k) outside s.channel _ s.used _ e (ground arith)
                (Knows-set r d s.used s.places i outside v.informed tt))
          | inr busy ↦ rw busy v
        ]

    act-Inv :
        (ev : Event S) (s : System S) (o : Option (Place S))
        → get_elem? s.places (who raw ev) ≡ o
        → Inv r d s
        → Inv r d (act raw ev o s)
    act-Inv (enters i st) s (some outside) e v = enters-Inv i st s e v
    act-Inv (leaves i f) s (some (inside c)) e v = leaves-Inv i c f s e v
    act-Inv (closes i) s (some outside) e v = closes-Inv i s e v
    act-Inv (resumes i) s (some (waiting k)) e v = resumes-Inv i k s e v
    act-Inv ev s o e v = unfold act in v

    run-Inv : (es : List (Event S)) (s : System S) → Inv r d s → Inv r d (run raw es s)
    unfolding run happen
    run-Inv [] s v = v
    run-Inv (ev ∷ es) s v =
        run-Inv es (happen raw ev s) (act-Inv ev s (get_elem? s.places (who raw ev)) refl v)

    start-Inv :
        (c k : ℕ) (client : Option ClientView) (w : S)
        → Inv r d (start (new_channel_with_release c client r d) w k)
    unfolding start new_channel_with_release
    start-Inv c k client w =
        let none_in = sum_by-replicate (in_method {S = S}) k outside refl in
        let none_wait = sum_by-replicate (in_wait {S = S}) k outside refl in
        record {
          books = ground (arith, none_in, none_wait);
          informed = no_wait-Knows r d false (replicate k outside) none_wait;
        }

    -- In every interleaving of methods and Close by any number of goroutines on a pooled channel, the
    -- raw channel is given up at most once; from then on no goroutine is in the body of a method; and
    -- it has been released for reuse only if no stateful method was ever let in, and discarded only
    -- if one was.
    pub given_up_once :
        (c k : ℕ) (client : Option ClientView) (w : S) (es : List (Event S))
        → let s = run raw es (start (new_channel_with_release c client r d) w k) in
          (count_disposals s.disposals ≤ 1)
          × (0 < count_disposals s.disposals → sum_by in_method s.places ≡ 0)
          × All (Fits s.used) s.disposals
    given_up_once c k client w es =
        let v = run-Inv es _ (start-Inv c k client w) in
        (omega (arith, v.books.one_owner), v.books.given_up_idle, v.books.fates)
