-- ===== src/Pool/Acquire.antt =====
-- pool.go, ChannelPool.Acquire as one function, for a caller whom no other goroutine interferes with.
-- The connection pool and the client use it; Pool/Alone relates it to the steps.
use eamqp.Base.{
  ℕ, Bool, true, Option, none, some, List, [], ◌∷◌, Error, Result, ok, err, pool_closed,
  channel_options, if◌then◌else◌,
}
use eamqp.Amqp.{Amqp, ChannelOptions}
use eamqp.Pool.{ChannelPool, add_one, acquire_permit, release_permit, is_usable, close_quietly}
use eamqp.Pool.Steps.{Pc, waiting, leased, failed, Turn}

-- The context's error where a select that could receive takes the context's case.
unfoldable pub interrupted : Option Error → Bool → Option Error
interrupted (some e) true = some e
interrupted _ _ = none

module _ {W : Type 0} (amqp : Amqp W) (opts : ChannelOptions W) (t : Turn) where
  unfoldable pub configured : ℕ → Option Error × W → ChannelPool → Pc × ChannelPool × W
  configured c (none, w) p = (leased c, p, w)
  configured c (some e, w) p =
      (failed (channel_options e), release_permit p, close_quietly amqp (some c) w)

  unfoldable pub configure_alone : ChannelOptions W → ℕ → ChannelPool → W → Pc × ChannelPool × W
  configure_alone none c p w = (leased c, p, w)
  configure_alone (some f) c p w = configured c (f c w) p

  unfoldable pub opened : Result ℕ × W → ChannelPool → Pc × ChannelPool × W
  opened (err e, w) p = (failed e, release_permit p, w)
  opened (ok c, w) p =
      configure_alone opts c
        (record p { acquired = add_one p.acquired; created = add_one p.created }) w

  -- A new channel, if the limit allows one.
  unfoldable pub open_new : Option ChannelPool → ChannelPool → W → Pc × ChannelPool × W
  open_new none p w = (waiting true, p, w)
  open_new (some q) p w = opened (amqp.open_channel q.conn w) q

  unfoldable pub or_failed :
      Option Error → ChannelPool → W → Pc × ChannelPool × W → Pc × ChannelPool × W
  or_failed none p w r = r
  or_failed (some e) p w r = (failed e, p, w)

  unfoldable pub found :
      Option ℕ → Bool → ChannelPool → W → Pc × ChannelPool × W → Pc × ChannelPool × W
  found (some c) true p w later = (leased c, record p { acquired = add_one p.acquired }, w)
  found _ _ p w later = later

  -- What is left where the idle buffer is `l`: the first usable idle channel, each unusable one
  -- before it giving its permit back; else a new channel.
  unfoldable pub acquire_from : List (Option ℕ) → ChannelPool → W → Pc × ChannelPool × W
  acquire_from [] p w = or_failed t.ctx p w (open_new (acquire_permit p) p w)
  acquire_from (ch ∷ rest) p w =
      let q = record p { idle = rest } in
      or_failed (interrupted t.ctx t.prefer_ctx) p w
        (found ch (is_usable amqp ch w) q w (acquire_from rest (release_permit q) w))

  -- Acquire as one function: `waiting` says that it blocks until its context is done or another
  -- goroutine puts a channel into the idle buffer.
  unfoldable pub acquire : ChannelPool → W → Pc × ChannelPool × W
  unfolding acquire_from open_new opened configure_alone configured or_failed found interrupted
  acquire p w = if p.closed then (failed pool_closed, p, w) else acquire_from p.idle p w
