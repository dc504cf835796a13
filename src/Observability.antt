-- ===== src/Observability.antt =====
-- observability.go, metrics.go and the reports of stat.go: the adapters to the framework's logger and
-- metrics, which are parameters, and what the monitor and the debug endpoint say of each client.
pub mod Fields
use eamqp.Base.{
  ℕ, zero, suc, ◌+◌, ◌/◌, ◌%◌, Bool, true, false, Option, none, some, List, [], ◌∷◌, ◌++◌, ltb,
  if◌then◌else◌,
}
use eamqp.Base.Int.{ℤ, pos}
use eamqp.Text.{Text, codes, is_empty}
use eamqp.Amqp.{Amqp, ChannelOptions}
use eamqp.Amqp.Raw.{
  Metric, connection, connection_error, channel_acquired, channel_returned, message_published,
  message_confirmed, message_nacked, message_consumed, publish_latency, consume_latency,
}
use eamqp.Config.Redact.{UrlLibrary, redact_address}
use eamqp.Connections.{PoolStats}
use eamqp.Client.{Client}
use eamqp.Client.Accessors.{client_stats}
use eamqp.Client.Health.{HealthInfo, health_status, of_int64}

-- An `any` among the key-values of a log call: nil, a string, or something else, by a number.
pub data Loggable : Type 0 where
  null : Loggable
  text : Text → Loggable
  others : ℕ → Loggable

-- elog.Any of a key and a value.
abbrev pub Field : Type 0
Field = Text × Loggable

pub data Level : Type 0 where
  debug info warn error : Level

-- The framework's logger, and its gauge, counter and histogram, each by its labels. A gauge takes a
-- float64, here the integer that it is; a duration is in nanoseconds.
pub record Ego (W : Type 0) : Type 0 where
  pub log : Level → Text → List Field → W → W
  pub set_gauge : ℤ → List Text → W → W
  pub inc_counter : List Text → W → W
  pub observe : ℕ → List Text → W → W

-- %d, with enough fuel for the digits.
unfoldable pub digits : ℕ → ℕ → Text
digits zero n = []
digits (suc fuel) n =
    let front = digits fuel (n / 10) in
    let last = (48 + n % 10) ∷ [] in if ltb n 10 then last else front ++ last

abbrev pub argument_name : ℕ → Text
argument_name i = codes "arg" ++ digits (suc i) i

-- A string that is not empty is a key; in place of anything else stands its position.
unfoldable pub key_of : ℕ → Loggable → Text
unfolding digits
key_of i null = argument_name i
key_of i (others n) = argument_name i
key_of i (text t) = if is_empty t then argument_name i else t

-- keyvalsToFields from position `i` on.
unfoldable pub fields_from : ℕ → List Loggable → List Field
unfolding key_of
fields_from i [] = []
fields_from i (k ∷ []) = (key_of i k, null) ∷ []
fields_from i (k ∷ v ∷ rest) = (key_of i k, v) ∷ fields_from (suc (suc i)) rest

unfoldable pub keyvals_to_fields : List Loggable → List Field
unfolding fields_from
keyvals_to_fields keyvals = fields_from 0 keyvals

-- A Logger with its four methods.
abbrev pub Logger : Type 0 → Type 0
Logger W = Level → Text → List Loggable → W → W

pub nop_logger : {W : Type 0} → Logger W
nop_logger level msg keyvals w = w

-- The methods of egoLogger.
unfoldable pub ego_logger : {W : Type 0} → Ego W → Logger W
ego_logger ego level msg keyvals = ego.log level msg (keyvals_to_fields keyvals)

-- NewEgoLogger; `none` is the nil component.
unfoldable pub new_ego_logger : {W : Type 0} → Option (Ego W) → Logger W
unfolding nop_logger
new_ego_logger none = nop_logger
new_ego_logger (some ego) = ego_logger ego

pub record EgoMetricsCollector : Type 0 where
  pub name : Text
  pub peer : Text

unfoldable pub new_ego_metrics : UrlLibrary → Text → Text → EgoMetricsCollector
new_ego_metrics urls name peer = record {
  name = if is_empty name then codes "eamqp" else name;
  peer = redact_address urls peer;
}

abbrev metric_type : Text
metric_type = codes "amqp"

module _ {W : Type 0} (ego : Ego W) where
  unfoldable pub inc : EgoMetricsCollector → Text → Text → W → W
  inc m method code = ego.inc_counter (metric_type ∷ m.name ∷ method ∷ m.peer ∷ code ∷ [])

  unfoldable pub observe : EgoMetricsCollector → Text → ℕ → W → W
  observe m method duration = ego.observe duration (metric_type ∷ m.name ∷ method ∷ m.peer ∷ [])

  unfoldable pub gauge : Text → Text → ℤ → W → W
  gauge name stat value = ego.set_gauge value (metric_type ∷ name ∷ stat ∷ [])

  -- The methods of EgoMetricsCollector.
  unfoldable pub record_ego : EgoMetricsCollector → Metric → W → W
  unfolding inc observe gauge
  record_ego m (connection active) w =
      gauge m.name (codes "connection_active") (if active then pos 1 else pos 0) w
  record_ego m connection_error w = inc m (codes "connection") (codes "Error") w
  record_ego m channel_acquired w = inc m (codes "channel_acquire") (codes "OK") w
  record_ego m channel_returned w = inc m (codes "channel_return") (codes "OK") w
  record_ego m (message_published size) w =
      gauge m.name (codes "last_publish_size") (pos size) (inc m (codes "publish") (codes "OK") w)
  record_ego m message_confirmed w = inc m (codes "confirm") (codes "OK") w
  record_ego m message_nacked w = inc m (codes "confirm") (codes "Nack") w
  record_ego m (message_consumed size) w =
      gauge m.name (codes "last_consume_size") (pos size) (inc m (codes "consume") (codes "OK") w)
  record_ego m (publish_latency duration) w = observe m (codes "publish") duration w
  record_ego m (consume_latency duration) w = observe m (codes "consume") duration w

  -- recordStatsMetrics, from the client's statistics.
  unfoldable pub record_stats_metrics : Text → PoolStats → W → W
  unfolding gauge
  record_stats_metrics name pool w =
      let w₁ = gauge name (codes "connections_active") (of_int64 pool.connections_active) w in
      let w₂ = gauge name (codes "connections_total") (of_int64 pool.connections_total) w₁ in
      let w₃ = gauge name (codes "channels_active") (of_int64 pool.channels_active) w₂ in
      let w₄ = gauge name (codes "channels_acquired") (of_int64 pool.channels_acquired) w₃ in
      let w₅ = gauge name (codes "channels_returned") (of_int64 pool.channels_returned) w₄ in
      gauge name (codes "reconnects") (of_int64 pool.reconnects) w₅

-- NoOpMetrics
pub no_op_metrics : {W : Type 0} → Metric → W → W
no_op_metrics m w = w

-- The registry of built clients, by name; a name stands in it once.
abbrev pub Instances : Type 0
Instances = List (Text × Client)

pub record InstanceStats : Type 0 where
  pub health : HealthInfo
  pub pool : PoolStats

module _ {W : Type 0} (amqp : Amqp W) (opts : ChannelOptions W) where
  -- The debug endpoint's answer; a client in the registry is not nil.
  unfoldable pub stats : Instances → W → List (Text × InstanceStats)
  stats [] w = []
  stats ((name, client) ∷ rest) w =
      (
        name,
        record {
          health = health_status amqp opts client w;
          pool = client_stats amqp opts client w;
        },
      )
      ∷ stats rest w

  -- One tick of the monitor.
  unfoldable pub monitor_tick : Ego W → Instances → W → W
  unfolding record_stats_metrics
  monitor_tick ego [] w = w
  monitor_tick ego ((name, client) ∷ rest) w =
      monitor_tick ego rest (record_stats_metrics ego name (client_stats amqp opts client w) w)
