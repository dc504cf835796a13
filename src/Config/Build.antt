-- ===== src/Config/Build.antt =====
-- config.go, buildAmqpConfig.
use eamqp.Base.{ℕ, not, ◌||◌, Option, none, some, List, [], ◌∷◌, Result, ok, err, if◌then◌else◌}
use eamqp.Base.Int.{ℤ}
use eamqp.Text.{Text, is_empty}
use eamqp.Config.{Config, TlsConfig, Uri}
use eamqp.Config.Tls.{CryptoLibrary, build_tls_config, has_tls_file_config}

-- amqp.Authentication: a PlainAuth made here, or one that the options give.
pub data Authentication : Type 0 where
  plain : Text → Text → Authentication
  given : ℕ → Authentication

-- The fields of Options that the dialling reads; a dial function is a number.
pub record DialOptions : Type 0 where
  pub dial : Option ℕ
  pub auth : List Authentication
  pub connection_name : Text

-- amqp.Config, with the client's connection name in the place of its properties.
pub record AmqpConfig : Type 0 where
  pub vhost : Text
  pub heartbeat : ℤ
  pub channel_max : ℕ
  pub frame_size : ℤ
  pub locale : Text
  pub tls : Option TlsConfig
  pub connection_name : Option Text
  pub dial : Option ℕ
  pub sasl : List Authentication

abbrev pub opts_auth : Option DialOptions → List Authentication
opts_auth none = []
opts_auth (some o) = o.auth

abbrev pub opts_dial : Option DialOptions → Option ℕ
opts_dial none = none
opts_dial (some o) = o.dial

abbrev pub opts_name : Option DialOptions → Text
opts_name none = []
opts_name (some o) = o.connection_name

abbrev pub named : Text → Option Text
named name = if is_empty name then none else some name

-- The SASL mechanisms: those of the options, or PLAIN with the configuration's credentials.
unfoldable pub sasl_of : Config → List Authentication → List Authentication
sasl_of c [] =
    if not (is_empty c.username) || not (is_empty c.password)
    then plain c.username c.password ∷ []
    else []
sasl_of c (a ∷ auth) = a ∷ auth

module _ {W : Type 0} (crypto : CryptoLibrary W) (w : W) where
  built : Result TlsConfig → Result (Option TlsConfig)
  built (err e) = err e
  built (ok t) = ok (some t)

  chosen_tls : Config → Uri → Option TlsConfig → Result (Option TlsConfig)
  unfolding built
  chosen_tls c uri (some t) = ok (some t)
  chosen_tls c uri none =
      let server = if is_empty c.tls_server_name then uri.host else c.tls_server_name in
      if has_tls_file_config c then built (build_tls_config crypto w c server) else ok none

  assembled : Config → Uri → Option DialOptions → Result (Option TlsConfig) → Result AmqpConfig
  unfolding sasl_of
  assembled c uri opts (err e) = err e
  assembled c uri opts (ok tls) = ok (record {
    vhost = uri.vhost;
    heartbeat = c.heartbeat;
    channel_max = c.channel_max;
    frame_size = c.frame_size;
    locale = c.locale;
    tls = tls;
    connection_name = named (if is_empty (opts_name opts) then c.client_name else opts_name opts);
    dial = opts_dial opts;
    sasl = sasl_of c (opts_auth opts);
  })

  unfoldable pub build_amqp_config : Config → Uri → Option DialOptions → Result AmqpConfig
  unfolding assembled chosen_tls
  build_amqp_config c uri opts = assembled c uri opts (chosen_tls c uri c.tls_config)
