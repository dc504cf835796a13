-- ===== src/Config.antt =====
-- config.go: the configuration, and the URIs that it stands for. Parsing and printing of one AMQP
-- URI are amqp091-go's, and parameters here.
pub mod Redact
pub mod Uris
pub mod Tls
pub mod Pairs
pub mod Agree
pub mod Build
pub mod Hidden
pub mod Parsed
use eamqp.Base.{
  ℕ, ◌*◌, Bool, true, false, Option, none, some, List, [], Error, Result, addr_required,
  if◌then◌else◌,
}
use eamqp.Base.Int.{ℤ, pos, leb_ℤ}
use eamqp.Text.{Text, codes, is_empty}
use eamqp.Reconnect.{ReconnectPolicy, Floats}

-- crypto/tls's Config; a certificate and a pool of them are numbers.
pub record TlsConfig : Type 0 where
  pub server_name : Text
  pub certificates : List ℕ
  pub root_cas : Option ℕ
  pub insecure_skip_verify : Bool

pub record Config : Type 0 where
  pub addr : Text
  pub vhost : Text
  pub tls_config : Option TlsConfig
  pub tls_cert_file : Text
  pub tls_key_file : Text
  pub tls_ca_cert : Text
  pub tls_server_name : Text
  pub username : Text
  pub password : Text
  pub heartbeat : ℤ
  pub channel_max : ℕ
  pub frame_size : ℤ
  pub locale : Text
  pub pool_size : ℤ
  pub pool_max_idle : ℤ
  pub pool_max_life : ℤ
  pub channel_pool_size : ℤ
  pub channel_pool_max_idle : ℤ
  pub channel_pool_max_life : ℤ
  pub reconnect_interval : ℤ
  pub reconnect_max_attempts : ℤ
  pub enable_access_interceptor : Bool
  pub enable_metric_interceptor : Bool
  pub enable_trace_interceptor : Bool
  pub client_name : Text
  pub on_fail : Text

-- time.Second, in nanoseconds.
abbrev pub seconds : ℕ → ℤ
seconds n = pos (n * 1000000000)

unfoldable pub default_config : Config
default_config = record {
  addr = [];
  vhost = [];
  tls_config = none;
  tls_cert_file = [];
  tls_key_file = [];
  tls_ca_cert = [];
  tls_server_name = [];
  username = [];
  password = [];
  heartbeat = seconds 10;
  channel_max = 0;
  frame_size = pos 0;
  locale = codes "en_US";
  pool_size = pos 1;
  pool_max_idle = pos 2;
  pool_max_life = seconds 3600;
  channel_pool_size = pos 1;
  channel_pool_max_idle = pos 2;
  channel_pool_max_life = seconds 300;
  reconnect_interval = seconds 5;
  reconnect_max_attempts = pos 0;
  enable_access_interceptor = false;
  enable_metric_interceptor = true;
  enable_trace_interceptor = true;
  client_name = [];
  on_fail = [];
}

abbrev pub with_interval : Config → Config
with_interval c =
    if leb_ℤ c.reconnect_interval (pos 0) then record c { reconnect_interval = seconds 5 } else c

-- Validate: its error, and the config that it has completed.
unfoldable pub validate : Config → Option Error × Config
validate c = if is_empty c.addr then (some addr_required, c) else (none, with_interval c)

unfoldable pub reconnect_policy : {F : Type 0} → Floats F → Config → ReconnectPolicy F
reconnect_policy floats c = record {
  enabled = true;
  initial = (with_interval c).reconnect_interval;
  max = seconds 30;
  multiplier = floats.of_int (pos 2);
  max_attempts = c.reconnect_max_attempts;
}

-- amqp091-go's URI, by the fields that the code names; `others` stands for the rest of it.
pub record Uri : Type 0 where
  pub host : Text
  pub vhost : Text
  pub username : Text
  pub password : Text
  pub others : ℕ

-- amqp.ParseURI, URI.String, and the text of an error.
pub record UriLibrary : Type 0 where
  pub parse : Text → Result Uri
  pub print : Uri → Text
  pub error_text : Error → Text
