-- ===== src/Examples/Settings/Arguments.antt =====
-- exampleconfig/config.go: what the two loops over the command line find, each with its own treatment
-- of the flag, on a command line that is written from its parts.
use eamqp.Base.{
  ◌≡◌, refl, ap, ◌∙◌, Bool, true, false, Option, none, some, List, [], ◌∷◌, ◌++◌, arith, All,
  if◌then◌else◌,
}
use eamqp.Text.{Text, codes, starts_with}
use eamqp.Examples.Settings.{
  is_config_flag, has_config_value, long_prefix, short_prefix, plain_args, args_without_config,
  path_in, config_path_from_args,
}

-- One part of a command line: an argument of the program's own, or a configuration file, behind the
-- flag or joined to it, with two dashes or with one.
pub data Part : Type 0 where
  own : Text → Part
  behind joined : Bool → Text → Part

abbrev pub flag : Bool → Text
flag two = if two then codes "--config" else codes "-config"

abbrev pub prefix : Bool → Text
prefix two = if two then long_prefix else short_prefix

-- A command line may end in a flag with nothing behind it.
abbrev pub ending : Option Bool → List Text
ending none = []
ending (some two) = flag two ∷ []

abbrev pub written : List Part → Option Bool → List Text
written [] last = ending last
written (own arg ∷ parts) last = arg ∷ written parts last
written (behind two path ∷ parts) last = flag two ∷ path ∷ written parts last
written (joined two path ∷ parts) last = (prefix two ++ path) ∷ written parts last

abbrev pub own_args : List Part → List Text
own_args [] = []
own_args (own arg ∷ parts) = arg ∷ own_args parts
own_args (behind two path ∷ parts) = own_args parts
own_args (joined two path ∷ parts) = own_args parts

abbrev pub first_path : List Part → Text
first_path [] = []
first_path (own arg ∷ parts) = first_path parts
first_path (behind two path ∷ parts) = path
first_path (joined two path ∷ parts) = path

-- An argument that is no configuration flag, nor starts as one with a value.
abbrev pub IsOwn : Text → Type 0
IsOwn arg = (is_config_flag arg ≡ false) × (has_config_value arg ≡ false)

abbrev pub IsProper : Part → Type 0
IsProper (own arg) = IsOwn arg
IsProper (behind two path) = Unit {0}
IsProper (joined two path) = Unit {0}

plain_args-own :
    (arg : Text) (rest : List Text) → IsOwn arg → plain_args (arg ∷ rest) ≡ arg ∷ plain_args rest
unfolding plain_args
plain_args-own arg [] h = rw (h.0, h.1) refl
plain_args-own arg (x ∷ rest) h = rw (h.0, h.1) refl

plain_args-flag :
    (two : Bool) (path : Text) (rest : List Text)
    → plain_args (flag two ∷ path ∷ rest) ≡ plain_args rest
unfolding plain_args is_config_flag
plain_args-flag true path rest = refl
plain_args-flag false path rest = refl

plain_args-prefix :
    (two : Bool) (path : Text) (rest : List Text)
    → plain_args ((prefix two ++ path) ∷ rest) ≡ plain_args rest
unfolding plain_args is_config_flag has_config_value starts_with
plain_args-prefix true path [] = refl
plain_args-prefix true path (x ∷ rest) = refl
plain_args-prefix false path [] = refl
plain_args-prefix false path (x ∷ rest) = refl

plain_args-ending : (last : Option Bool) → plain_args (ending last) ≡ []
unfolding plain_args is_config_flag
plain_args-ending none = refl
plain_args-ending (some true) = refl
plain_args-ending (some false) = refl

plain_args-written :
    (parts : List Part) (last : Option Bool)
    → All IsProper parts
    → plain_args (written parts last) ≡ own_args parts
plain_args-written [] last h = plain_args-ending last
plain_args-written (own arg ∷ parts) last h =
    plain_args-own arg _ h.0 ∙ ap (λ l. arg ∷ l) (plain_args-written parts last h.1)
plain_args-written (behind two path ∷ parts) last h =
    plain_args-flag two path _ ∙ plain_args-written parts last h.1
plain_args-written (joined two path ∷ parts) last h =
    plain_args-prefix two path _ ∙ plain_args-written parts last h.1

path_in-own : (arg later : Text) → has_config_value arg ≡ false → path_in arg later ≡ later
unfolding path_in has_config_value
path_in-own arg later h = ground arith

config_path-own :
    (arg : Text) (rest : List Text)
    → IsOwn arg
    → config_path_from_args (arg ∷ rest) ≡ config_path_from_args rest
unfolding config_path_from_args
config_path-own arg [] h = rw h.0 (path_in-own arg [] h.1)
config_path-own arg (x ∷ rest) h = rw h.0 (path_in-own arg _ h.1)

config_path-flag :
    (two : Bool) (path : Text) (rest : List Text)
    → config_path_from_args (flag two ∷ path ∷ rest) ≡ path
unfolding config_path_from_args is_config_flag
config_path-flag true path rest = refl
config_path-flag false path rest = refl

config_path-prefix :
    (two : Bool) (path : Text) (rest : List Text)
    → config_path_from_args ((prefix two ++ path) ∷ rest) ≡ path
unfolding config_path_from_args is_config_flag path_in starts_with
config_path-prefix true path [] = refl
config_path-prefix true path (x ∷ rest) = refl
config_path-prefix false path [] = refl
config_path-prefix false path (x ∷ rest) = refl

config_path-ending : (last : Option Bool) → config_path_from_args (ending last) ≡ []
unfolding config_path_from_args is_config_flag
config_path-ending none = refl
config_path-ending (some true) = refl
config_path-ending (some false) = refl

config_path-written :
    (parts : List Part) (last : Option Bool)
    → All IsProper parts
    → config_path_from_args (written parts last) ≡ first_path parts
config_path-written [] last h = config_path-ending last
config_path-written (own arg ∷ parts) last h =
    config_path-own arg _ h.0 ∙ config_path-written parts last h.1
config_path-written (behind two path ∷ parts) last h = config_path-flag two path _
config_path-written (joined two path ∷ parts) last h = config_path-prefix two path _

-- On a command line of an executable's name, arguments of the program's own, and configuration files
-- behind the flag or joined to it, in any order: ArgsWithoutConfig returns exactly the program's own
-- arguments, in their order, and configPathFromArgs the first of the files, or "" if there is none.
-- The files may have any name, that of the flag too, and the line may end in a flag with nothing
-- behind it; the executable's name and the own arguments are not themselves configuration flags.
pub args_without_config-written :
    (executable : Text) (parts : List Part) (last : Option Bool)
    → IsOwn executable
    → All IsProper parts
    → (args_without_config (executable ∷ written parts last) ≡ own_args parts)
      × (config_path_from_args (executable ∷ written parts last) ≡ first_path parts)
unfolding args_without_config
args_without_config-written executable parts last e h = (
  plain_args-written parts last h,
  config_path-own executable _ e ∙ config_path-written parts last h,
)
