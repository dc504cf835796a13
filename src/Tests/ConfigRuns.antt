-- ===== src/Tests/ConfigRuns.antt =====
-- Runs of the configuration: two addresses, TLS files, a URI with a password, and New.
use eamqp.Base.{
  ℕ, suc, ◌≡◌, refl, inl, inr, Bool, true, false, ◌&&◌, not, ◌==◌, none, some, List, [], ◌∷◌,
  Result, ok, arith, length, if◌then◌else◌,
}
use eamqp.Text.{Text, codes, is_empty}
use eamqp.Text.Search.{Lacks}
use eamqp.Config.{Config, TlsConfig, Uri, UriLibrary, default_config}
use eamqp.Config.Redact.{UrlLibrary, redact_uri, mask}
use eamqp.Config.Hidden.{secret_uri, redact_uri-secret}
use eamqp.Config.Uris.{parse_uris}
use eamqp.Config.Parsed.{IsParsed, addresses, parse_uris-IsParsed}
use eamqp.Config.Tls.{CryptoLibrary, build_tls_config, load_tls_config, some_config}
use eamqp.Config.Pairs.{HoldsPair, HoldsRoots, build_tls_config-HoldsPair}
use eamqp.Config.Agree.{files_of, relabeled, load_tls_config-eq-build}
use eamqp.Config.Build.{AmqpConfig}
use eamqp.Client.New.{
  ClientOption, no_options, with_options, with_logger, apply, log_with, metrics_of, new_client,
}
use eamqp.Client.New.Started.{IsNew, new_client-IsNew}
use eamqp.Observability.{Ego}
use eamqp.Container.{Container, configured, build_e, with_on_fail}
use eamqp.Container.Registry.{Registers, build_e-Registers}
use eamqp.Tests.Lab.{World, quiet, lab, lab-Closing}

abbrev no_urls : UrlLibrary
no_urls = record {
  Url = Text;
  parse = λ t. none;
  user = λ u. none;
  with_user = λ name password u. u;
  print = λ u. u;
}

-- An address is a host name.
abbrev hosts : UriLibrary
hosts = record {
  parse = λ t. ok (record { host = t; vhost = []; username = []; password = []; others = 0 });
  print = λ u. u.host;
  error_text = λ e. [];
}

abbrev files : CryptoLibrary World
files = record {
  load_key_pair = λ cert key w. ok (length cert);
  read_file = λ name w. ok name;
  append_certs = λ pem. some (length pem);
}

abbrev both_hosts : Config
both_hosts = record default_config {
  addr = codes "east, west";
  vhost = codes "orders";
  tls_cert_file = codes "c.pem";
  tls_key_file = codes "k.pem";
  tls_ca_cert = codes "ca.pem";
}

abbrev both_hosts_tls : TlsConfig
both_hosts_tls = record {
  server_name = codes "east";
  certificates = 5 ∷ [];
  root_cas = some 6;
  insecure_skip_verify = false;
}

abbrev absent : ℕ → Text → Bool
absent b [] = true
absent b (c ∷ s) = not (c == b) && absent b s

absent-Lacks : (b : ℕ) (s : Text) → absent b s ≡ true → Lacks b s
absent-Lacks b [] h = tt
absent-Lacks b (c ∷ s) h = (λ e. ground arith, absent-Lacks b s (ground arith))

redact_uri-secret_example :
    redact_uri no_urls (secret_uri (codes "amqp") (codes "me") (codes "p@s:s") (codes "host"))
    ≡ secret_uri (codes "amqp") (codes "me") mask (codes "host")
redact_uri-secret_example =
    redact_uri-secret no_urls (codes "amqp") (codes "me") (codes "p@s:s") (codes "host")
      (absent-Lacks b':' (codes "amqp") refl) (absent-Lacks b':' (codes "me") refl)
      (absent-Lacks b'@' (codes "host") refl) (inl refl)

parse_uris-IsParsed_example :
    IsParsed no_urls hosts both_hosts
      (addresses both_hosts.addr)
      (parse_uris no_urls hosts both_hosts)
parse_uris-IsParsed_example = parse_uris-IsParsed no_urls hosts both_hosts

build_tls_config-HoldsPair_example :
    HoldsPair files quiet both_hosts.tls_cert_file both_hosts.tls_key_file (5 ∷ [])
    × HoldsRoots files quiet both_hosts.tls_ca_cert (some 6)
    × (codes "east" ≡ codes "east")
unfolding default_config build_tls_config eamqp.Config.Tls.with_roots
    eamqp.Config.Tls.with_certificate eamqp.Config.Tls.load_cert_pool
build_tls_config-HoldsPair_example =
    build_tls_config-HoldsPair files quiet both_hosts (codes "east") both_hosts_tls refl

load_tls_config-eq-build_example : load_tls_config files quiet (some (files_of both_hosts true)) ≡ (
    if is_empty both_hosts.tls_cert_file
      && is_empty both_hosts.tls_key_file
      && is_empty both_hosts.tls_ca_cert
    then ok none
    else some_config files quiet
        (relabeled [] true (build_tls_config files quiet both_hosts (codes "east"))))
load_tls_config-eq-build_example =
    load_tls_config-eq-build files quiet both_hosts (codes "east") true

abbrev dial_lab : Text → AmqpConfig → World → Result ℕ × World
dial_lab t cfg w = (ok w.next, record w { next = suc w.next })

abbrev logging : List (ClientOption World)
logging = with_options (some no_options) ∷ with_logger (some (λ t w. w)) ∷ []

new_client-IsNew_example : IsNew lab lab-Closing 3 (
    new_client no_urls hosts files dial_lab lab both_hosts logging
      (record quiet { hung_up = 3 ∷ [] }))
unfolding apply with_options log_with metrics_of
new_client-IsNew_example =
    new_client-IsNew lab no_urls hosts files dial_lab (λ t cfg w d h. inr h) lab-Closing both_hosts
      logging (record no_options { logger = some (λ t w. w) }) 3 (record quiet { hung_up = 3 ∷ [] })
      refl (λ t d w h. h) (λ m d w h. h) refl

abbrev unwatched : Ego World
unwatched = record {
  log = λ level msg fields w. w;
  set_gauge = λ value labels w. w;
  inc_counter = λ labels w. w;
  observe = λ duration labels w. w;
}

abbrev named : Container
named = record { config = both_hosts; name = codes "orders"; on_fail = codes "error" }

build_e-Registers_example :
    Registers (configured (with_on_fail (codes "panic") ∷ []) named).name [] (
      build_e no_urls hosts files dial_lab lab unwatched
        (with_on_fail (codes "panic") ∷ [])
        named
        []
        quiet)
build_e-Registers_example =
    build_e-Registers no_urls hosts files dial_lab lab unwatched (with_on_fail (codes "panic") ∷ [])
      named [] quiet
