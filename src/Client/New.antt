-- ===== src/Client/New.antt =====
-- client.go, New with its options, and the dialling that it does with the configuration: parseURIs,
-- buildAmqpConfig and amqp.DialConfig, of which only the last is a parameter.
pub mod Started
use eamqp.Base.{
  ℕ, true, false, Option, none, some, List, [], ◌∷◌, Error, Result, Outcome, ok, err, returns,
  panics, dial_failed, if◌then◌else◌,
}
use eamqp.Text.{Text}
use eamqp.Amqp.{Amqp, ChannelOptions}
use eamqp.Amqp.Raw.{Metric}
use eamqp.Config.{Config, Uri, UriLibrary, validate}
use eamqp.Config.Redact.{UrlLibrary, redact_uri}
use eamqp.Config.Uris.{parse_uris}
use eamqp.Config.Tls.{CryptoLibrary}
use eamqp.Config.Build.{DialOptions, AmqpConfig, build_amqp_config}
use eamqp.Client.{Client, ClientConfig, dial}

-- The fields of Options that are used. A logger is what its message "eamqp connected" does, and a
-- metrics collector what its calls do.
pub record Options (W : Type 0) : Type 0 where
  pub dialling : DialOptions
  pub channel_options : ChannelOptions W
  pub logger : Option (Text → W → W)
  pub metrics : Option (Metric → W → W)

-- type Option. An option that is nil itself panics like WithOptions(nil).
abbrev pub ClientOption : Type 0 → Type 0
ClientOption W = Options W → Outcome (Options W)

-- *o = *opts, for a pointer that may be nil.
unfoldable pub with_options : {W : Type 0} → Option (Options W) → ClientOption W
with_options none o = panics
with_options (some opts) o = returns opts

abbrev pub with_logger : {W : Type 0} → Option (Text → W → W) → ClientOption W
with_logger log o = returns (record o { logger = log })

abbrev pub with_metrics : {W : Type 0} → Option (Metric → W → W) → ClientOption W
with_metrics m o = returns (record o { metrics = m })

-- &Options{}
abbrev pub no_options : {W : Type 0} → Options W
no_options = record {
  dialling = record { dial = none; auth = []; connection_name = [] };
  channel_options = none;
  logger = none;
  metrics = none;
}

unfoldable pub apply : {W : Type 0} → List (ClientOption W) → Options W → Outcome (Options W)
apply [] o = returns o
apply (opt ∷ opts) o = elim (opt o) [ panics ↦ panics | returns o' ↦ apply opts o' ]

abbrev pub client_config : Config → ClientConfig
client_config c = record {
  pool_size = c.pool_size;
  channels = record {
    channel_pool_size = c.channel_pool_size;
    channel_pool_max_idle = c.channel_pool_max_idle;
  };
}

-- The client that New makes before it dials.
abbrev pub fresh_client : Config → Client
fresh_client c = record { config = client_config c; conn = none; pool = none; closed = false }

-- The logger of the options, or NopLogger where the access interceptor is on.
unfoldable pub logger_of : {W : Type 0} → Config → Option (Text → W → W) → Option (Text → W → W)
logger_of c none = if c.enable_access_interceptor then some (λ t w. w) else none
logger_of c (some log) = some log

-- The metrics of the options, or NoOpMetrics.
unfoldable pub metrics_of : {W : Type 0} → Option (Metric → W → W) → Metric → W → W
metrics_of none m w = w
metrics_of (some record_metric) m w = record_metric m w

unfoldable pub log_with : {W : Type 0} → Option (Text → W → W) → Text → W → W
log_with none t w = w
log_with (some log) t w = log t w

-- `dial_config` is amqp.DialConfig.
module _ (urls : UrlLibrary) (uris : UriLibrary) {W : Type 0} (crypto : CryptoLibrary W)
    (dial_config : Text → AmqpConfig → W → Result ℕ × W) where
  -- The error of a failed dial names the URI as redactAMQPURI leaves it.
  unfoldable pub dial_result : Uri → Result ℕ × W → Result ℕ × W
  dial_result u (err e, w) = (err (dial_failed (redact_uri urls (uris.print u)) e), w)
  dial_result u (ok conn, w) = (ok conn, w)

  unfoldable pub dial_built : Uri → Result AmqpConfig → W → Result ℕ × W
  unfolding dial_result
  dial_built u (err e) w = (err e, w)
  dial_built u (ok cfg) w = dial_result u (dial_config (uris.print u) cfg w)

  -- ConnectionPool.dial.
  unfoldable pub pool_dial : Config → Options W → Uri → W → Result ℕ × W
  unfolding dial_built
  pool_dial c opts u w = dial_built u (build_amqp_config crypto w c u (some opts.dialling)) w

  unfoldable pub logged : Option (Text → W → W) → Uri → Result ℕ × W → Result ℕ × W
  unfolding log_with
  logged log u (err e, w) = (err e, w)
  logged log u (ok conn, w) = (ok conn, log_with log (redact_uri urls (uris.print u)) w)

  -- Client.dialConnection, which also logs.
  unfoldable pub dial_connection :
      Config → Options W → Option (Text → W → W) → Uri → W → Result ℕ × W
  unfolding logged
  dial_connection c opts log u w = logged log u (pool_dial c opts u w)

  unfoldable pub started : Outcome (Option Error) × Client × W → Outcome (Result Client) × W
  started (returns none, c, w) = (returns (ok c), w)
  started (returns (some e), c, w) = (returns (err e), w)
  started (panics, c, w) = (panics, w)

  -- What New does once the configuration has been completed.
  unfoldable pub start : Amqp W → Config → Options W → W → Outcome (Result Client) × W
  unfolding started
  start amqp c o w = started (
      dial amqp o.channel_options (metrics_of o.metrics)
        (dial_connection c o (logger_of c o.logger)) (pool_dial c o) (parse_uris urls uris c)
        (fresh_client c) w)

  unfoldable pub applied : Amqp W → Config → Outcome (Options W) → W → Outcome (Result Client) × W
  unfolding start
  applied amqp c panics w = (panics, w)
  applied amqp c (returns o) w = start amqp c o w

  unfoldable pub validated :
      Amqp W → Option Error × Config → List (ClientOption W) → W → Outcome (Result Client) × W
  unfolding applied apply
  validated amqp (some e, c) opts w = (returns (err e), w)
  validated amqp (none, c) opts w = applied amqp c (apply opts no_options) w

  unfoldable pub new_client :
      Amqp W → Config → List (ClientOption W) → W → Outcome (Result Client) × W
  unfolding validated
  new_client amqp c opts w = validated amqp (validate c) opts w
