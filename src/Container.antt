-- ===== src/Container.antt =====
-- container.go and the registry of stat.go: a client from the framework's configuration. The
-- framework's configuration manager, its logger and its metrics are parameters.
pub mod Registry
use eamqp.Base.{
  ℕ, Bool, true, false, ◌&&◌, ◌==◌, Option, none, some, List, [], ◌∷◌, ◌++◌, Error, Result, Outcome,
  ok, err, returns, panics, invalid_config, start_failed, if◌then◌else◌,
}
use eamqp.Text.{Text, codes, is_empty}
use eamqp.Amqp.{Amqp}
use eamqp.Config.{Config, UriLibrary, default_config, validate}
use eamqp.Config.Redact.{UrlLibrary, redact_address}
use eamqp.Config.Tls.{CryptoLibrary}
use eamqp.Config.Build.{AmqpConfig}
use eamqp.Client.{Client}
use eamqp.Observability.{
  Ego, Field, Logger, Instances, info, text, new_ego_logger, new_ego_metrics, record_ego,
}
use eamqp.Client.New.{ClientOption, with_logger, with_metrics, new_client}

pub record Container : Type 0 where
  pub config : Config
  pub name : Text
  pub on_fail : Text

abbrev pub default_container : Container
default_container = record { config = default_config; name = []; on_fail = codes "panic" }

loaded : Text → Container → Result Config → Outcome Container
loaded key c (err e) = panics
loaded key c (ok config) = returns (record {
  config = config;
  name = key;
  on_fail = if is_empty config.on_fail then c.on_fail else config.on_fail;
})

-- Load; econf.UnmarshalKey is `unmarshal`, and the logger's Panic panics.
unfoldable pub load : (Text → Config → Result Config) → Text → Outcome Container
unfolding loaded
load unmarshal key = loaded key default_container (unmarshal key default_container.config)

pub with_on_fail : Text → Container → Container
with_on_fail on_fail c = record c { on_fail = on_fail }

abbrev pub same_text : Text → Text → Bool
same_text [] [] = true
same_text [] (y ∷ t) = false
same_text (x ∷ s) [] = false
same_text (x ∷ s) (y ∷ t) = x == y && same_text s t

-- instances.Store
unfoldable pub store : Text → Client → Instances → Instances
store name client [] = (name, client) ∷ []
store name client ((n, c) ∷ rest) =
    let later = store name client rest in
    if same_text name n then (name, client) ∷ rest else (n, c) ∷ later

-- LoadInstance
unfoldable pub load_instance : Text → Instances → Option Client
load_instance name [] = none
load_instance name ((n, client) ∷ rest) =
    let later = load_instance name rest in if same_text name n then some client else later

-- Client's connected message, with the address as its only key-value.
abbrev connected : {W : Type 0} → Logger W → Text → W → W
connected log addr = log info (codes "eamqp connected") (text (codes "addr") ∷ text addr ∷ [])

pub build_client_options : {W : Type 0} → UrlLibrary → Ego W → Container → List (ClientOption W)
build_client_options urls ego c =
    let metrics =
      record_ego ego (new_ego_metrics urls c.name (redact_address urls c.config.addr)) in
    let log =
      if c.config.enable_access_interceptor
      then with_logger (some (connected (new_ego_logger (some ego)))) ∷ []
      else [] in
    let measure =
      if c.config.enable_metric_interceptor then with_metrics (some metrics) ∷ [] else [] in
    log ++ measure

unfoldable pub configured : List (Container → Container) → Container → Container
configured [] c = c
configured (opt ∷ opts) c = configured opts (opt c)

module _ (urls : UrlLibrary) (uris : UriLibrary) {W : Type 0} (crypto : CryptoLibrary W)
    (dial_config : Text → AmqpConfig → W → Result ℕ × W) (amqp : Amqp W) (ego : Ego W) where
  -- The client is stored under the container's name.
  unfoldable pub stored :
      Text → Outcome (Result Client) × W → Instances → Outcome (Result Client) × Instances × W
  stored name (panics, w) all = (panics, all, w)
  stored name (returns (err e), w) all = (returns (err (start_failed e)), all, w)
  stored name (returns (ok client), w) all = (returns (ok client), store name client all, w)

  unfoldable pub started :
      Container → Option Error × Config → Instances → W → Outcome (Result Client) × Instances × W
  unfolding stored
  started c (some e, config) all w = (returns (err (invalid_config e)), all, w)
  started c (none, config) all w =
      let opts = build_client_options urls ego (record c { config = config }) in
      let addr : Field = (codes "addr", text (redact_address urls config.addr)) in
      let w' = ego.log info (codes "start amqp") (addr ∷ []) w in
      stored c.name (new_client urls uris crypto dial_config amqp config opts w') all

  -- BuildE, whose message "start amqp" goes to the framework's logger.
  unfoldable pub build_e :
      List (Container → Container)
      → Container
      → Instances
      → W
      → Outcome (Result Client) × Instances × W
  unfolding started
  build_e options c all w = let k = configured options c in started k (validate k.config) all w

  -- `none` is the nil client.
  built : Text → Outcome (Result Client) × Instances × W → Outcome (Option Client) × Instances × W
  built on_fail (panics, all, w) = (panics, all, w)
  built on_fail (returns (ok client), all, w) = (returns (some client), all, w)
  built on_fail (returns (err e), all, w) =
      (if same_text on_fail (codes "panic") then panics else returns none, all, w)

  pub build :
      List (Container → Container)
      → Container
      → Instances
      → W
      → Outcome (Option Client) × Instances × W
  unfolding built
  build options c all w = built (configured options c).on_fail (build_e options c all w)
