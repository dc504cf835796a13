-- ===== src/Pool/Steps.antt =====
-- pool.go, ChannelPool.Acquire, release, discard and Close as the steps that goroutines interleave.
-- A step is one critical section, one select, one atomic operation or one call of amqp091-go.
use eamqp.Base.{
  ℕ, Bool, true, false, not, Option, none, some, List, [], ◌∷◌, ◌++◌, Error, Result, ◌==◌,
  if◌then◌else◌,
}
use eamqp.Base.{ok, err, channel_options, pool_closed}
use eamqp.Amqp.{Amqp, ChannelOptions}
use eamqp.Pool.{
  ChannelPool, Receive, blocked, item, ended, receive, take_permit, drop_permit, add_one, sub_one,
  is_nonpositive, has_room, is_usable, close_quietly,
}

-- What follows a `releasePermit`: another round of Acquire's loop, Acquire's error, the end of a
-- release or a discard, or the next round of Close's loop.
pub data Next : Type 0 where
  retry : Next
  give_up : Error → Next
  finish : Next
  drain : Next

-- Where a goroutine stands. `live` says that the snapshot of `channels` was not nil.
--   head          the top of Acquire's loop, before the snapshot
--   polling       before the first select
--   checking      it has received from the idle channel, before the test of `ch`
--   claiming      before the select of acquirePermit
--   counting      before acquirePermit's addition to `active`
--   opening       before conn.Channel()
--   tallying      before the additions to `acquired` and `created`
--   configuring   before the channel options
--   waiting       in the second select
--   leased        Acquire has returned this channel
--   failed        Acquire has returned this error
--   freeing       before the select of releasePermit
--   lowering      before its load of `active`
--   swapping      before its compare-and-swap, with the value loaded
--   closing       before the critical section of Close
--   draining      in Close's loop over the closed Go channel
--   finished      the call has returned
pub data Pc : Type 0 where
  head : Pc
  polling : Bool → Pc
  checking : Option ℕ → Pc
  claiming : Bool → Pc
  counting : Pc
  opening : Pc
  tallying : ℕ → Pc
  configuring : ℕ → Pc
  waiting : Bool → Pc
  leased : ℕ → Pc
  failed : Error → Pc
  freeing : Next → Pc
  lowering : Next → Pc
  swapping : Next → ℕ → Pc
  closing : Pc
  draining : Pc
  finished : Pc

-- What the surroundings decide of a step: the context's error once it is done (a nil context becomes
-- context.Background() and never is), whether a select with two ready cases takes the context's, and
-- whether the holder of a lease calls discard instead of release.
pub record Turn : Type 0 where
  pub ctx : Option Error
  pub prefer_ctx : Bool
  pub discards : Bool

abbrev pub resume : Next → Pc
resume retry = head
resume (give_up e) = failed e
resume finish = finished
resume drain = draining

-- A select over the context and the idle channel. `otherwise` is where it goes if neither is ready.
unfoldable pub select : Option Error → Bool → Receive → Pc → ChannelPool → Pc × ChannelPool
select none b blocked otherwise p = (otherwise, p)
select none b (item c rest) otherwise p = (checking c, record p { idle = rest })
select none b ended otherwise p = (failed pool_closed, p)
select (some e) b blocked otherwise p = (failed e, p)
select (some e) true (item c rest) otherwise p = (failed e, p)
select (some e) false (item c rest) otherwise p = (checking c, record p { idle = rest })
select (some e) true ended otherwise p = (failed e, p)
select (some e) false ended otherwise p = (failed pool_closed, p)

unfoldable pub claim : Option ChannelPool → Bool → ChannelPool → Pc × ChannelPool
claim none live p = (waiting live, p)
claim (some q) live p = (counting, q)

swap : Next → ℕ → ChannelPool → Pc × ChannelPool
swap next seen p =
    if p.active == seen
    then (resume next, record p { active = sub_one seen })
    else (lowering next, p)

-- The critical section of Close. Where it sets `channels` to nil, the loop over them follows.
pub close_section : ChannelPool → Pc × ChannelPool
close_section p =
    if p.closed
    then (finished, p)
    else if p.has_channels
    then (draining, record p { closed = true; idle_closed = true; has_channels = false })
    else (finished, record p { closed = true })

module _ {W : Type 0} (amqp : Amqp W) where
  -- The body of `release` up to its `releasePermit`, which `freeing` runs.
  unfoldable pub release : Option ℕ → ChannelPool → W → Pc × ChannelPool × W
  release ch p w =
      if p.closed
      then (freeing finish, p, close_quietly amqp ch w)
      else if not (is_usable amqp ch w)
      then (freeing finish, p, w)
      else if has_room p
      then (finished, record p { idle = p.idle ++ ch ∷ []; returned = add_one p.returned }, w)
      else (freeing finish, p, close_quietly amqp ch w)

  -- The body of `discard` up to its `releasePermit`.
  unfoldable pub discard : Option ℕ → ChannelPool → W → Pc × ChannelPool × W
  discard ch p w = (freeing finish, p, close_quietly amqp ch w)

  unfoldable pub open_result : Result ℕ × W → ChannelPool → Pc × ChannelPool × W
  open_result (err e, w) p = (freeing (give_up e), p, w)
  open_result (ok c, w) p = (tallying c, p, w)

  unfoldable pub configure_result : ℕ → Option Error × W → ChannelPool → Pc × ChannelPool × W
  configure_result c (none, w) p = (leased c, p, w)
  configure_result c (some e, w) p =
      (freeing (give_up (channel_options e)), p, close_quietly amqp (some c) w)

  unfoldable pub configure : ChannelOptions W → ℕ → ChannelPool → W → Pc × ChannelPool × W
  unfolding configure_result
  configure none c p w = (leased c, p, w)
  configure (some f) c p w = configure_result c (f c w) p

  -- One round of Close's loop: a nil channel is skipped with its permit.
  unfoldable pub drain_next : List (Option ℕ) → ChannelPool → W → Pc × ChannelPool × W
  drain_next [] p w = (finished, p, w)
  drain_next (none ∷ rest) p w = (draining, record p { idle = rest }, w)
  drain_next (some c ∷ rest) p w =
      (freeing drain, record p { idle = rest }, close_quietly amqp (some c) w)

  unfoldable pub check : Option ℕ → Bool → ChannelPool → W → Pc × ChannelPool × W
  check (some c) true p w = (leased c, record p { acquired = add_one p.acquired }, w)
  check _ _ p w = (freeing retry, p, w)

  -- One step of the goroutine that stands at the given place.
  unfoldable pub step : ChannelOptions W → Turn → Pc → ChannelPool → W → Pc × ChannelPool × W
  unfolding select claim swap close_section release discard open_result configure drain_next check
      receive take_permit drop_permit
  step opts t head p w = (if p.closed then failed pool_closed else polling p.has_channels, p, w)
  step opts t (polling live) p w =
      let (pc, q) = select t.ctx t.prefer_ctx (receive live p) (claiming live) p in (pc, q, w)
  step opts t (checking ch) p w = check ch (is_usable amqp ch w) p w
  step opts t (claiming live) p w = let (pc, q) = claim (take_permit p.limit p) live p in (pc, q, w)
  step opts t counting p w = (opening, record p { active = add_one p.active }, w)
  step opts t opening p w = open_result (amqp.open_channel p.conn w) p
  step opts t (tallying c) p w =
      (configuring c, record p { acquired = add_one p.acquired; created = add_one p.created }, w)
  step opts t (configuring c) p w = configure opts c p w
  step opts t (waiting live) p w =
      let (pc, q) = select t.ctx t.prefer_ctx (receive live p) (waiting live) p in (pc, q, w)
  step opts t (leased c) p w = if t.discards then discard (some c) p w else release (some c) p w
  step opts t (failed e) p w = (failed e, p, w)
  step opts t (freeing next) p w = (lowering next, drop_permit p.limit p, w)
  step opts t (lowering next) p w =
      (if is_nonpositive p.active then resume next else swapping next p.active, p, w)
  step opts t (swapping next seen) p w = let (pc, q) = swap next seen p in (pc, q, w)
  step opts t closing p w = let (pc, q) = close_section p in (pc, q, w)
  step opts t draining p w = drain_next p.idle p w
  step opts t finished p w = (finished, p, w)
