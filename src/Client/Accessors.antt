-- ===== src/Client/Accessors.antt =====
-- client.go and pool.go: the methods that read a client or a pool, or listen to its connections.
use eamqp.Base.{ℕ, Bool, true, false, Option, none, some, if◌then◌else◌}
use eamqp.Base.Int.{pos}
use eamqp.Amqp.{Amqp, ChannelOptions}
use eamqp.Connections.{ConnectionPool, PoolStats, get_connection, stats}
use eamqp.Notify.{Fan, notify_pool}
use eamqp.Config.{Config}
use eamqp.Channel.{ClientView}
use eamqp.Client.{Client, ClientConfig}
use eamqp.Client.New.{Options, logger_of}

abbrev empty_stats : PoolStats
empty_stats = record {
  connections_active = 0;
  connections_total = 0;
  channels_active = 0;
  channels_acquired = 0;
  channels_returned = 0;
  reconnects = 0;
}

raw_of_pool : Option ConnectionPool → Option ℕ
raw_of_pool none = none
raw_of_pool (some p) = get_connection p (pos 0)

raw_of : Option ℕ → Option ConnectionPool → Option ℕ
unfolding raw_of_pool
raw_of (some conn) pool = some conn
raw_of none pool = raw_of_pool pool

-- RawConnection
unfoldable pub raw_connection : Client → Option ℕ
unfolding raw_of
raw_connection c = raw_of c.conn c.pool

module _ {W : Type 0} (amqp : Amqp W) (opts : ChannelOptions W) where
  single_stats : Option ℕ → W → PoolStats
  single_stats none w = empty_stats
  single_stats (some conn) w = record empty_stats {
    connections_active = if amqp.connection_is_closed conn w then 0 else 1;
    connections_total = 1;
  }

  stats_of : Option ConnectionPool → Option ℕ → W → PoolStats
  unfolding single_stats
  stats_of (some p) conn w = stats amqp opts p w
  stats_of none conn w = single_stats conn w

  -- Client.Stats
  unfoldable pub client_stats : Client → W → PoolStats
  unfolding stats_of
  client_stats c w = stats_of c.pool c.conn w

-- ConnectionPool.NotifyBlocked: the same fan as NotifyClose, over another kind of notification.
unfoldable pub pool_notify_blocked : {E : Type 0} → ConnectionPool → Fan E E
pool_notify_blocked p = notify_pool p.connections

-- What the client's NotifyBlocked returns: the connection's own Go channel, the pool's, or a closed one.
pub data Blocked (E : Type 0) : Type 0 where
  of_connection : ℕ → Blocked E
  of_pool : Fan E E → Blocked E
  never : Blocked E

blocked_of : {E : Type 0} → Option ℕ → Option ConnectionPool → Blocked E
unfolding pool_notify_blocked
blocked_of (some conn) pool = of_connection conn
blocked_of none (some p) = of_pool (pool_notify_blocked p)
blocked_of none none = never

unfoldable pub notify_blocked : {E : Type 0} → Client → Blocked E
unfolding blocked_of
notify_blocked c = blocked_of c.conn c.pool

pub is_closed : Client → Bool
is_closed c = c.closed

pub pool_is_closed : ConnectionPool → Bool
pool_is_closed p = p.closed

pub config : Client → ClientConfig
config c = c.config

has_logger : {A : Type 0} → Option A → Bool
has_logger none = false
has_logger (some log) = true

-- GetLogger, GetMetrics and traceEnabled of a client that New has made; its metrics are never nil.
unfoldable pub view_of : {W : Type 0} → Config → Options W → ClientView
unfolding has_logger
view_of c o = record {
  has_logger = has_logger (logger_of c o.logger);
  has_metrics = true;
  trace_enabled = c.enable_trace_interceptor;
}
