-- ===== src/Examples/Settings.antt =====
-- examples/internal/exampleconfig/config.go: the arguments of an example program, the configuration
-- file that they, the environment or the working directory name, and the client made from it.
pub mod Arguments
use eamqp.Base.{
  ℕ, Bool, true, false, ◌||◌, Option, none, some, List, [], ◌∷◌, Error, Result, Outcome, ok, err,
  returns, panics, working_directory, config_not_found, open_config, unsupported_format,
  if◌then◌else◌,
}
use eamqp.Text.{Text, codes, is_empty, starts_with, drop}
use eamqp.Config.{Config}
use eamqp.Client.{Client}
use eamqp.Observability.{Instances}
use eamqp.Container.{Container, same_text, load, with_on_fail}

unfoldable pub is_config_flag : Text → Bool
is_config_flag arg = same_text arg (codes "--config") || same_text arg (codes "-config")

abbrev pub long_prefix : Text
long_prefix = codes "--config="

abbrev pub short_prefix : Text
short_prefix = codes "-config="

unfoldable pub has_config_value : Text → Bool
has_config_value arg = starts_with long_prefix arg || starts_with short_prefix arg

-- The loop of ArgsWithoutConfig; a flag takes the argument behind it away with it.
unfoldable pub plain_args : List Text → List Text
plain_args [] = []
plain_args (arg ∷ []) =
    if is_config_flag arg then [] else if has_config_value arg then [] else arg ∷ []
plain_args (arg ∷ next ∷ rest) =
    let behind = plain_args rest in
    let others = plain_args (next ∷ rest) in
    if is_config_flag arg then behind else if has_config_value arg then others else arg ∷ others

-- ArgsWithoutConfig, whose first argument is the executable's name.
unfoldable pub args_without_config : List Text → List Text
unfolding plain_args
args_without_config [] = []
args_without_config (executable ∷ args) = plain_args args

-- strings.TrimPrefix of the prefix that the argument has; `later` is the rest of the loop.
unfoldable pub path_in : Text → Text → Text
path_in arg later =
    if starts_with long_prefix arg
    then drop 9 arg
    else if starts_with short_prefix arg
    then drop 8 arg
    else later

-- configPathFromArgs
unfoldable pub config_path_from_args : List Text → Text
unfolding path_in
config_path_from_args [] = []
config_path_from_args (arg ∷ []) = if is_config_flag arg then [] else path_in arg []
config_path_from_args (arg ∷ next ∷ rest) =
    let later = config_path_from_args (next ∷ rest) in
    if is_config_flag arg then next else path_in arg later

pub data Format : Type 0 where
  toml yaml json : Format

-- The operating system, the file paths, and the framework's configuration manager.
pub record Host (W : Type 0) : Type 0 where
  pub args : List Text
  pub getenv : Text → W → Text
  pub getwd : W → Result Text
  pub exists : Text → W → Bool
  pub join : List Text → Text
  pub lower_extension : Text → Text
  pub extension : Text → Text
  pub open_file : Text → W → Result ℕ × W
  pub close_file : ℕ → W → W
  pub load_from_reader : ℕ → Format → W → Option Error × W
  pub unmarshal_key : W → Text → Config → Result Config

module _ {W : Type 0} (host : Host W) where
  unfoldable pub default_config_candidates : Text → List Text
  default_config_candidates working_dir =
      host.join (working_dir ∷ codes "examples" ∷ codes "config" ∷ codes "local.toml" ∷ [])
      ∷ host.join (working_dir ∷ codes ".." ∷ codes "config" ∷ codes "local.toml" ∷ [])
      ∷ host.join (working_dir ∷ codes "config" ∷ codes "local.toml" ∷ [])
      ∷ []

  unfoldable pub first_existing : List Text → W → Result Text
  first_existing [] w = err config_not_found
  first_existing (path ∷ paths) w =
      let later = first_existing paths w in if host.exists path w then ok path else later

  -- `getenv` is not nil.
  unfoldable pub resolve_config_path : List Text → (Text → Text) → Text → W → Result Text
  unfolding first_existing default_config_candidates config_path_from_args
  resolve_config_path args getenv working_dir w =
      let named = config_path_from_args args in
      let set_there = getenv (codes "EAMQP_EXAMPLE_CONFIG") in
      if is_empty named
      then if is_empty set_there
        then first_existing (default_config_candidates working_dir) w
        else ok set_there
      else ok named

  -- The switch over the file's extension.
  unfoldable pub format_of : Text → Result Format
  format_of path =
      let ext = host.lower_extension path in
      if same_text ext (codes ".toml")
      then ok toml
      else if same_text ext (codes ".yaml") || same_text ext (codes ".yml")
      then ok yaml
      else if same_text ext (codes ".json")
      then ok json
      else err (unsupported_format (host.extension path))

  read_format : ℕ → Result Format → W → Option Error × W
  read_format file (err e) w = (some e, w)
  read_format file (ok format) w = host.load_from_reader file format w

  -- defer file.Close()
  closing_file : ℕ → Option Error × W → Option Error × W
  closing_file file (e, w) = (e, host.close_file file w)

  load_opened : Text → Result ℕ × W → Option Error × W
  unfolding read_format closing_file format_of
  load_opened path (err e, w) = (some (open_config path e), w)
  load_opened path (ok file, w) = closing_file file (read_format file (format_of path) w)

  unfoldable pub load_config_file : Text → W → Option Error × W
  unfolding load_opened
  load_config_file path w = load_opened path (host.open_file path w)

  -- `build_e` is BuildE of a container, with its options.
  module _
      (build_e : List (Container → Container)
        → Container
        → Instances
        → W
        → Outcome (Result Client) × Instances × W) where
    load_built : Outcome Container → Instances → W → Outcome (Result Client) × Instances × W
    load_built panics all w = (panics, all, w)
    load_built (returns c) all w = build_e (with_on_fail (codes "error") ∷ []) c all w

    load_file_read : Text → Option Error × W → Instances → Outcome (Result Client) × Instances × W
    unfolding load_built
    load_file_read key (some e, w) all = (returns (err e), all, w)
    load_file_read key (none, w) all = load_built (load (host.unmarshal_key w) key) all w

    load_resolved : Text → Result Text → Instances → W → Outcome (Result Client) × Instances × W
    unfolding load_file_read load_config_file
    load_resolved key (err e) all w = (returns (err e), all, w)
    load_resolved key (ok path) all w = load_file_read key (load_config_file path w) all

    load_in : Text → Result Text → Instances → W → Outcome (Result Client) × Instances × W
    unfolding load_resolved resolve_config_path
    load_in key (err e) all w = (returns (err (working_directory e)), all, w)
    load_in key (ok wd) all w =
        load_resolved key (resolve_config_path host.args (λ name. host.getenv name w) wd w) all w

    -- LoadClient
    unfoldable pub load_client : Text → Instances → W → Outcome (Result Client) × Instances × W
    unfolding load_in
    load_client component_key all w =
        load_in (if is_empty component_key then codes "amqp.default" else component_key)
          (host.getwd w) all w
