-- ===== src/Client/Ping.antt =====
-- health.go: Ping.
use eamqp.Base.{
  ℕ, Option, none, some, Error, Result, Outcome, ok, err, returns, panics, ping_canceled,
  client_closed, connection_closed, connections_closed, no_connection, ping_failed, if◌then◌else◌,
}
use eamqp.Amqp.{Amqp, ChannelOptions}
use eamqp.Connections.{ConnectionPool, acquire_channel}
use eamqp.Client.{Client}

module _ {W : Type 0} (amqp : Amqp W) (opts : ChannelOptions W) where
  -- Ping on the single connection.
  ping_opened : Result ℕ × W → Option Error × W
  ping_opened (err e, w) = (some (ping_failed e), w)
  ping_opened (ok ch, w) = amqp.close_channel ch w

  ping_single : ℕ → W → Option Error × W
  unfolding ping_opened
  ping_single d w =
      if amqp.connection_is_closed d w
      then (some connection_closed, w)
      else ping_opened (amqp.open_channel d w)

  -- Ping on the pool: the release of AcquireChannel's result closes the channel.
  ping_leased :
      Outcome (Result ℕ) × ConnectionPool × W → Outcome (Option Error) × ConnectionPool × W
  ping_leased (panics, p, w) = (panics, p, w)
  ping_leased (returns (err e), p, w) = (returns (some (ping_failed e)), p, w)
  ping_leased (returns (ok ch), p, w) = (returns none, p, (amqp.close_channel ch w).1)

  ping_pool : ConnectionPool → W → Outcome (Option Error) × ConnectionPool × W
  unfolding ping_leased
  ping_pool p w =
      if p.closed
      then (returns (some connections_closed), p, w)
      else ping_leased (acquire_channel amqp opts p w)

  ping_from : Option ℕ → Option ConnectionPool → Client → W → Outcome (Option Error) × Client × W
  unfolding ping_single ping_pool
  ping_from (some d) p c w = let (e, w') = ping_single d w in (returns e, c, w')
  ping_from none (some p) c w =
      let (e, p', w') = ping_pool p w in (e, record c { pool = some p' }, w')
  ping_from none none c w = (returns (some no_connection), c, w)

  -- Ping of a client that is not nil; `ctx` is its context's error, if it is done.
  unfoldable pub ping : Option Error → Client → W → Outcome (Option Error) × Client × W
  unfolding ping_from
  ping (some e) c w = (returns (some (ping_canceled e)), c, w)
  ping none c w =
      if c.closed then (returns (some client_closed), c, w) else ping_from c.conn c.pool c w
