-- ===== src/Container/Registry.antt =====
-- container.go and stat.go: what a build leaves in the registry.
use eamqp.Base.{
  ℕ, ◌≡◌, refl, true, Option, none, some, List, [], ◌∷◌, Error, Result, ok, err, Outcome, returns,
  panics, arith, Bool-cases, inl, inr, ◌==◌, if◌then◌else◌,
}
use eamqp.Text.{Text}
use eamqp.Amqp.{Amqp}
use eamqp.Config.{Config, UriLibrary}
use eamqp.Config.Redact.{UrlLibrary}
use eamqp.Config.Tls.{CryptoLibrary}
use eamqp.Config.Build.{AmqpConfig}
use eamqp.Client.{Client}
use eamqp.Observability.{Instances, Ego}
use eamqp.Container.{
  Container, same_text, store, load_instance, stored, started, configured, build_e,
}

pub same_text_refl : (t : Text) → same_text t t ≡ true
same_text_refl [] = refl
same_text_refl (c ∷ t) = ground (arith, same_text_refl t)

pub same_text_eq : (s t : Text) → same_text s t ≡ true → s ≡ t
same_text_eq [] [] h = refl
same_text_eq [] (y ∷ t) h = ground arith
same_text_eq (x ∷ s) [] h = ground arith
same_text_eq (x ∷ s) (y ∷ t) h = elim (Bool-cases (x == y)) [
  | inl e ↦ elim (Bool-cases (same_text s t)) [
    | inl r ↦ let tails = same_text_eq s t r in ground arith
    | inr r ↦ absurd (ground arith)
  ]
  | inr n ↦ absurd (ground arith)
]

same_text_join :
    (other name n : Text)
    → same_text other name ≡ true
    → same_text other n ≡ true
    → same_text name n ≡ true
same_text_join other name n e f = rw (← same_text_eq other name e) f

same_text_trans :
    (other name n : Text) → same_text name n ≡ true → same_text other n ≡ same_text other name
same_text_trans other name n e = rw (same_text_eq name n e) refl

load_instance-store :
    (name other : Text) (client : Client) (all : Instances)
    → load_instance other (store name client all)
      ≡ (if same_text other name then some client else load_instance other all)
unfolding load_instance store
load_instance-store name other client [] = refl
load_instance-store name other client ((n, c) ∷ rest) =
    let later = load_instance-store name other client rest in
    grind (arith, later, same_text_join other name n, same_text_trans other name n)

-- What a build's result says of the registry.
abbrev pub Registers :
    Text → Instances → {W : Type 0} → Outcome (Result Client) × Instances × W → Type 0
Registers name all (panics, all', w) = all' ≡ all
Registers name all (returns (err e), all', w) = all' ≡ all
Registers name all (returns (ok client), all', w) =
    (other : Text)
    → load_instance other all'
      ≡ (if same_text other name then some client else load_instance other all)

module _ (urls : UrlLibrary) (uris : UriLibrary) {W : Type 0} (crypto : CryptoLibrary W)
    (dial_config : Text → AmqpConfig → W → Result ℕ × W) (amqp : Amqp W) (ego : Ego W) where
  stored-Registers :
      (name : Text) (r : Outcome (Result Client) × W) (all : Instances)
      → Registers name all (stored urls uris crypto dial_config amqp ego name r all)
  unfolding stored
  stored-Registers name (panics, w) all = refl
  stored-Registers name (returns (err e), w) all = refl
  stored-Registers name (returns (ok client), w) all =
      λ other. load_instance-store name other client all

  started-Registers :
      (c : Container) (r : Option Error × Config) (all : Instances) (w : W)
      → Registers c.name all (started urls uris crypto dial_config amqp ego c r all w)
  unfolding started
  started-Registers c (some e, config) all w = refl
  started-Registers c (none, config) all w = stored-Registers c.name _ all

  -- A build that succeeds is in the registry: LoadInstance returns its client for the container's
  -- name, and for any other name what it returned before. A build that fails, or panics, leaves the
  -- registry as it is.
  pub build_e-Registers :
      (options : List (Container → Container)) (c : Container) (all : Instances) (w : W)
      → Registers
          (configured options c).name
          all
          (build_e urls uris crypto dial_config amqp ego options c all w)
  unfolding build_e
  build_e-Registers options c all w = started-Registers (configured options c) _ all w
