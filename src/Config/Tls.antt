-- ===== src/Config/Tls.antt =====
-- config.go: TLS from files. crypto/tls, crypto/x509 and the file system are parameters.
use eamqp.Base.{
  ℕ, Bool, false, not, ◌&&◌, ◌||◌, Option, none, some, [], ◌∷◌, Result, ok, err, tls_pair, tls_load,
  tls_read_ca, tls_parse_ca, if◌then◌else◌,
}
use eamqp.Text.{Text, is_empty}
use eamqp.Config.{Config, TlsConfig}

-- tls.LoadX509KeyPair, os.ReadFile, and what AppendCertsFromPEM makes of a new pool, `none` where it
-- finds no certificate. All three read the world and leave it.
pub record CryptoLibrary (W : Type 0) : Type 0 where
  pub load_key_pair : Text → Text → W → Result ℕ
  pub read_file : Text → W → Result Text
  pub append_certs : Text → Option ℕ

-- type TLSConfig.
pub record TlsFiles : Type 0 where
  pub cert_file : Text
  pub key_file : Text
  pub ca_cert : Text
  pub insecure : Bool

module _ {W : Type 0} (crypto : CryptoLibrary W) (w : W) where
  unfoldable pub appended : Text → Option ℕ → Result ℕ
  appended ca_file none = err (tls_parse_ca ca_file)
  appended ca_file (some pool) = ok pool

  unfoldable pub pool_of : Text → Result Text → Result ℕ
  unfolding appended
  pool_of ca_file (err e) = err (tls_read_ca e)
  pool_of ca_file (ok pem) = appended ca_file (crypto.append_certs pem)

  unfoldable pub load_cert_pool : Text → Result ℕ
  unfolding pool_of
  load_cert_pool ca_file = pool_of ca_file (crypto.read_file ca_file w)

  unfoldable pub certified : Result ℕ → TlsConfig → Result TlsConfig
  certified (err e) t = err (tls_load e)
  certified (ok cert) t = ok (record t { certificates = cert ∷ [] })

  -- The block of buildTLSConfig on the certificate and the key.
  unfoldable pub with_certificate : Text → Text → TlsConfig → Result TlsConfig
  unfolding certified
  with_certificate cert key t =
      if not (is_empty cert) || not (is_empty key)
      then if is_empty cert || is_empty key
        then err tls_pair
        else certified (crypto.load_key_pair cert key w) t
      else ok t

  unfoldable pub rooted : Result ℕ → TlsConfig → Result TlsConfig
  rooted (err e) t = err e
  rooted (ok pool) t = ok (record t { root_cas = some pool })

  -- The block of buildTLSConfig on the certificate authority.
  unfoldable pub with_roots : Text → Result TlsConfig → Result TlsConfig
  unfolding rooted
  with_roots ca (err e) = err e
  with_roots ca (ok t) = if is_empty ca then ok t else rooted (load_cert_pool ca) t

  abbrev pub some_config : Result TlsConfig → Result (Option TlsConfig)
  some_config (err e) = err e
  some_config (ok t) = ok (some t)

  -- LoadTLSConfig's own blocks.
  unfoldable pub key_pair_set : Result ℕ → TlsConfig → Result TlsConfig
  key_pair_set (ok cert) t = ok (record t { certificates = cert ∷ [] })
  key_pair_set (err e) t = err (tls_load e)

  unfoldable pub with_key_pair : TlsFiles → TlsConfig → Result TlsConfig
  unfolding key_pair_set
  with_key_pair f t =
      if is_empty f.cert_file && is_empty f.key_file
      then ok t
      else if is_empty f.cert_file || is_empty f.key_file
      then err tls_pair
      else key_pair_set (crypto.load_key_pair f.cert_file f.key_file w) t

  unfoldable pub root_cas_set : Result ℕ → TlsConfig → Result TlsConfig
  root_cas_set (ok pool) t = ok (record t { root_cas = some pool })
  root_cas_set (err e) t = err e

  unfoldable pub with_authorities : TlsFiles → Result TlsConfig → Result TlsConfig
  unfolding root_cas_set
  with_authorities f (err e) = err e
  with_authorities f (ok t) =
      if not (is_empty f.ca_cert) then root_cas_set (load_cert_pool f.ca_cert) t else ok t

  -- LoadTLSConfig; `none` where the pointer is nil.
  unfoldable pub load_tls_config : Option TlsFiles → Result (Option TlsConfig)
  load_tls_config none = ok none
  load_tls_config (some f) =
      let t : TlsConfig = record {
        server_name = [];
        certificates = [];
        root_cas = none;
        insecure_skip_verify = f.insecure;
      } in
      if is_empty f.cert_file && is_empty f.key_file && is_empty f.ca_cert
      then ok none
      else some_config (with_authorities f (with_key_pair f t))

  unfoldable pub build_tls_config : Config → Text → Result TlsConfig
  build_tls_config c server_name = with_roots c.tls_ca_cert (
      with_certificate c.tls_cert_file c.tls_key_file (record {
        server_name = if is_empty c.tls_server_name then server_name else c.tls_server_name;
        certificates = [];
        root_cas = none;
        insecure_skip_verify = false;
      }))

unfoldable pub has_tls_file_config : Config → Bool
has_tls_file_config c =
    not (is_empty c.tls_cert_file)
    || not (is_empty c.tls_key_file)
    || not (is_empty c.tls_ca_cert)
    || not (is_empty c.tls_server_name)
