-- ===== src/Client.antt =====
-- client.go, type Client: one connection, or a connection pool. The URIs that parseURIs makes of the
-- configuration and the dialling of one of them are parameters, as in Connections/Dial.
pub mod Health
pub mod Ping
pub mod Dialled
pub mod Kept
pub mod Shut
pub mod New
pub mod Wrapped
pub mod Accessors
pub mod Lent
use eamqp.Base.{
  ℕ, Bool, true, false, not, ◌&&◌, Option, none, some, List, [], ◌∷◌, Error, Result, Outcome, ok,
  err, returns, panics, client_closed, pool_not_enabled, no_connection, open_failed, acquire_failed,
  channel_options, length, if◌then◌else◌,
}
use eamqp.Base.Int.{pos, leb_ℤ, ℤ}
use eamqp.Amqp.{Amqp, ChannelOptions}
use eamqp.Amqp.Raw.{Metric, connection, channel_acquired}
use eamqp.Pool.{PoolConfig, close_quietly}
use eamqp.Pool.Steps.{Turn}
use eamqp.Connections.{
  ConnectionPool, PoolStats, Acquired, lease, refused, blocks, new_connection_pool, get_connection,
  acquire_from_pool, stats,
}
use eamqp.Connections.Dial.{dial_all}
use eamqp.Connections.Shutdown.{close as close_pool}

-- The fields of Config that a client reads itself.
pub record ClientConfig : Type 0 where
  pub pool_size : ℤ
  pub channels : PoolConfig

pub record Client : Type 0 where
  pub config : ClientConfig
  pub conn : Option ℕ
  pub pool : Option ConnectionPool
  pub closed : Bool

-- What a wrapper is made of: a raw channel opened on the single connection, without callbacks, or
-- one leased from the channel pool with this number, whose release and discard are its callbacks.
pub data Opened : Type 0 where
  direct : ℕ → Opened
  pooled : ℕ → ℕ → Opened
  pending : ℕ → Opened
  failed : Error → Opened

module _ {W : Type 0} (amqp : Amqp W) (opts : ChannelOptions W)
    (record_metric : Metric → W → W) where
  -- dialConnection, and the pool's own dial.
  module _ {U : Type 0} (dial_connection pool_dial : U → W → Result ℕ × W) where
    -- Single connection mode.
    unfoldable pub dialled : Client → Result ℕ × W → Outcome (Option Error) × Client × W
    dialled c (err e, w) = (returns (some e), c, w)
    dialled c (ok conn, w) =
        (returns none, record c { conn = some conn }, record_metric (connection true) w)

    -- Connection pool mode.
    unfoldable pub dial_pool : List U → Client → W → Outcome (Option Error) × Client × W
    dial_pool us c w =
        let (o, p, w') =
          dial_all amqp pool_dial c.config.channels us
            (new_connection_pool c.config.pool_size (length us)) w in
        (o, record c { pool = some p }, w')

    unfoldable pub dial_uris : List U → Client → W → Outcome (Option Error) × Client × W
    unfolding dialled dial_pool
    dial_uris (u ∷ []) c w =
        if leb_ℤ c.config.pool_size (pos 1) && leb_ℤ c.config.channels.channel_pool_size (pos 0)
        then dialled c (dial_connection u w)
        else dial_pool (u ∷ []) c w
    dial_uris us c w = dial_pool us c w

    unfoldable pub dial : Result (List U) → Client → W → Outcome (Option Error) × Client × W
    unfolding dial_uris
    dial (err e) c w = (returns (some e), c, w)
    dial (ok us) c w = dial_uris us c w

  -- c.conn.Close() with its metric; the error is `last` where it is nil.
  unfoldable pub close_single : Option ℕ → W → Option Error × W
  close_single none w = (none, w)
  close_single (some d) w =
      let (e, w') = amqp.close_connection d w in (e, record_metric (connection false) w')

  unfoldable pub close_pooled :
      Option ConnectionPool → Option Error → W → Option Error × Option ConnectionPool × W
  close_pooled none last w = (last, none, w)
  close_pooled (some p) last w =
      let (e, p', w') = close_pool amqp p w in
      (elim e [ none ↦ last | some x ↦ some x ], some p', w')

  unfoldable pub close : Client → W → Option Error × Client × W
  unfolding close_single close_pooled
  close c w =
      let (e₁, w₁) = close_single c.conn w in
      let (e₂, p, w₂) = close_pooled c.pool e₁ w₁ in
      if c.closed then (none, c, w) else (e₂, record c { closed = true; pool = p }, w₂)

  -- Reconnect drops what there was, and dials again.
  unfoldable pub reconnect :
      {U : Type 0}
      → (U → W → Result ℕ × W)
      → (U → W → Result ℕ × W)
      → Result (List U)
      → Client
      → W
      → Outcome (Option Error) × Client × W
  unfolding close_single close_pooled
  reconnect dial_connection pool_dial uris c w =
      let w₁ = (close_single c.conn w).1 in
      let (e, p, w₂) = close_pooled c.pool none w₁ in
      let dropped = record c { conn = none; pool = none } in
      if c.closed
      then (returns (some client_closed), c, w)
      else dial dial_connection pool_dial uris dropped w₂

  configured : ℕ → Option Error × W → Opened × W
  configured ch (none, w) = (direct ch, w)
  configured ch (some e, w) = (failed (channel_options e), close_quietly amqp (some ch) w)

  configure : ChannelOptions W → ℕ → W → Opened × W
  unfolding configured
  configure none ch w = (direct ch, w)
  configure (some f) ch w = configured ch (f ch w)

  opened : Result ℕ × W → Opened × W
  unfolding configure
  opened (err e, w) = (failed (open_failed e), w)
  opened (ok ch, w) = configure opts ch w

  unfoldable pub leased : (Error → Error) → Acquired → W → Opened × W
  leased wrap (refused e) w = (failed (wrap e), w)
  leased wrap (lease i ch) w = (pooled i ch, record_metric channel_acquired w)
  leased wrap (blocks i) w = (pending i, w)

  unfoldable pub taken :
      (Error → Error) → Client → Outcome Acquired × ConnectionPool × W → Outcome Opened × Client × W
  unfolding leased
  taken wrap c (panics, p, w) = (panics, record c { pool = some p }, w)
  taken wrap c (returns a, p, w) =
      let (o, w') = leased wrap a w in (returns o, record c { pool = some p }, w')

  unfoldable pub from_pool :
      (Error → Error)
      → Error
      → Turn
      → Option ConnectionPool
      → Client
      → W
      → Outcome Opened × Client × W
  unfolding taken
  from_pool wrap missing t none c w = (returns (failed missing), c, w)
  from_pool wrap missing t (some p) c w = taken wrap c (acquire_from_pool amqp opts t p w)

  unfoldable pub new_from : Turn → Option ℕ → Client → W → Outcome Opened × Client × W
  unfolding opened from_pool
  new_from t (some conn) c w = let (o, w') = opened (amqp.open_channel conn w) in (returns o, c, w')
  new_from t none c w = from_pool acquire_failed no_connection t c.pool c w

  -- NewChannel; `t` is for its context with the timeout of five seconds.
  unfoldable pub new_channel : Turn → Client → W → Outcome Opened × Client × W
  unfolding new_from
  new_channel t c w =
      if c.closed then (returns (failed client_closed), c, w) else new_from t c.conn c w

  -- AcquireChannel, in pool mode only.
  unfoldable pub acquire_channel : Turn → Client → W → Outcome Opened × Client × W
  unfolding from_pool
  acquire_channel t c w =
      if c.closed
      then (returns (failed client_closed), c, w)
      else from_pool (λ e. e) pool_not_enabled t c.pool c w
