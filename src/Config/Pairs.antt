-- ===== src/Config/Pairs.antt =====
-- config.go: what a TLS configuration from files holds.
use eamqp.Base.{
  ℕ, ◌≡◌, refl, ◌⊎◌, inl, inr, Bool, true, false, Option, none, some, List, [], ◌∷◌, Result, ok,
  err, arith, ◌∙◌, if◌then◌else◌,
}
use eamqp.Text.{Text, is_empty}
use eamqp.Config.{Config, TlsConfig}
use eamqp.Config.Tls.{
  CryptoLibrary, certified, rooted, appended, pool_of, load_cert_pool, with_certificate, with_roots,
  build_tls_config,
}

module _ {W : Type 0} (crypto : CryptoLibrary W) (w : W) where
  -- Both files are named and their key pair is the one certificate; or neither is, and there is none.
  abbrev pub HoldsPair : Text → Text → List ℕ → Type 0
  HoldsPair cert key certificates =
      ((k : ℕ) × (is_empty cert ≡ false)
        × (is_empty key ≡ false)
        × (crypto.load_key_pair cert key w ≡ ok k)
        × (certificates ≡ k ∷ []))
      ⊎ ((is_empty cert ≡ true) × (is_empty key ≡ true) × (certificates ≡ []))

  -- The file is named, can be read, and holds certificates, whose pool is there; or it is not named, and
  -- there is no pool.
  abbrev pub HoldsRoots : Text → Option ℕ → Type 0
  HoldsRoots ca roots =
      ((k : ℕ) × (pem : Text) × (is_empty ca ≡ false)
        × (crypto.read_file ca w ≡ ok pem)
        × (crypto.append_certs pem ≡ some k)
        × (roots ≡ some k))
      ⊎ ((is_empty ca ≡ true) × (roots ≡ none))

  certified-HoldsPair :
      (cert key : Text) (t t' : TlsConfig) (r : Result ℕ)
      → crypto.load_key_pair cert key w ≡ r
      → is_empty cert ≡ false
      → is_empty key ≡ false
      → certified crypto w r t ≡ ok t'
      → HoldsPair cert key t'.certificates
        × (t'.root_cas ≡ t.root_cas)
        × (t'.server_name ≡ t.server_name)
  unfolding certified
  certified-HoldsPair cert key t t' (ok k) h c k' e =
      (inl (k, c, k', h, ground arith), ground arith, ground arith)
  certified-HoldsPair cert key t t' (err x) h c k e = ground arith

  with_certificate-HoldsPair :
      (cert key : Text) (t t' : TlsConfig)
      → t.certificates ≡ []
      → with_certificate crypto w cert key t ≡ ok t'
      → HoldsPair cert key t'.certificates
        × (t'.root_cas ≡ t.root_cas)
        × (t'.server_name ≡ t.server_name)
  unfolding with_certificate
  with_certificate-HoldsPair [] [] t t' n e =
      (inr (refl, refl, ground arith), ground arith, ground arith)
  with_certificate-HoldsPair [] (x ∷ key) t t' n e = ground arith
  with_certificate-HoldsPair (x ∷ cert) [] t t' n e = ground arith
  with_certificate-HoldsPair (x ∷ cert) (y ∷ key) t t' n e =
      certified-HoldsPair (x ∷ cert) (y ∷ key) t t' (crypto.load_key_pair (x ∷ cert) (y ∷ key) w)
        refl refl refl e

  appended-pool :
      (ca pem : Text) (o : Option ℕ) (k : ℕ) → appended crypto w ca o ≡ ok k → o ≡ some k
  unfolding appended
  appended-pool ca pem none k e = ground arith
  appended-pool ca pem (some pool) k e = ground arith

  pool_of-read :
      (ca : Text) (r : Result Text) (k : ℕ)
      → pool_of crypto w ca r ≡ ok k
      → (pem : Text) × (r ≡ ok pem) × (crypto.append_certs pem ≡ some k)
  unfolding pool_of
  pool_of-read ca (err x) k e = ground arith
  pool_of-read ca (ok pem) k e = (pem, refl, appended-pool ca pem (crypto.append_certs pem) k e)

  load_cert_pool-read :
      (ca : Text) (k : ℕ)
      → load_cert_pool crypto w ca ≡ ok k
      → (pem : Text) × (crypto.read_file ca w ≡ ok pem) × (crypto.append_certs pem ≡ some k)
  unfolding load_cert_pool
  load_cert_pool-read ca k e = pool_of-read ca (crypto.read_file ca w) k e

  rooted-HoldsRoots :
      (ca : Text) (t t' : TlsConfig) (r : Result ℕ)
      → load_cert_pool crypto w ca ≡ r
      → is_empty ca ≡ false
      → rooted crypto w r t ≡ ok t'
      → HoldsRoots ca t'.root_cas
        × (t'.certificates ≡ t.certificates)
        × (t'.server_name ≡ t.server_name)
  unfolding rooted
  rooted-HoldsRoots ca t t' (ok k) h c e =
      let (pem, read, certs) = load_cert_pool-read ca k h in
      (inl (k, pem, c, read, certs, ground arith), ground arith, ground arith)
  rooted-HoldsRoots ca t t' (err x) h c e = ground arith

  with_roots-HoldsRoots :
      (ca : Text) (t t' : TlsConfig)
      → t.root_cas ≡ none
      → with_roots crypto w ca (ok t) ≡ ok t'
      → HoldsRoots ca t'.root_cas
        × (t'.certificates ≡ t.certificates)
        × (t'.server_name ≡ t.server_name)
  unfolding with_roots
  with_roots-HoldsRoots [] t t' n e = (inr (refl, ground arith), ground arith, ground arith)
  with_roots-HoldsRoots (x ∷ ca) t t' n e =
      rooted-HoldsRoots (x ∷ ca) t t' (load_cert_pool crypto w (x ∷ ca)) refl refl e

  abbrev bare : Text → Bool → TlsConfig
  bare name insecure = record {
    server_name = name;
    certificates = [];
    root_cas = none;
    insecure_skip_verify = insecure;
  }

  both_blocks :
      (cert key ca name : Text) (flag : Bool) (t' : TlsConfig) (r : Result TlsConfig)
      → with_certificate crypto w cert key (bare name flag) ≡ r
      → with_roots crypto w ca r ≡ ok t'
      → HoldsPair cert key t'.certificates × HoldsRoots ca t'.root_cas × (t'.server_name ≡ name)
  both_blocks cert key ca name flag t' (ok t) h e =
      let pair = with_certificate-HoldsPair cert key (bare name flag) t refl h in
      let roots = with_roots-HoldsRoots ca t t' pair.1 e in
      (rw roots.1 pair.0, roots.0, roots.2 ∙ pair.2)
  both_blocks cert key ca name flag t' (err x) h e = absurd (unfold with_roots in ground arith)

  -- A TLS configuration that is built from files is never half of what was asked for: it has the key
  -- pair of the two files named, or none where neither is named; the pool of the certificates that the
  -- authorities' file holds, or none where it is not named; and the configured server name, or else the given one.
  pub build_tls_config-HoldsPair :
      (c : Config) (name : Text) (t : TlsConfig)
      → build_tls_config crypto w c name ≡ ok t
      → HoldsPair c.tls_cert_file c.tls_key_file t.certificates
        × HoldsRoots c.tls_ca_cert t.root_cas
        × (t.server_name ≡ (if is_empty c.tls_server_name then name else c.tls_server_name))
  unfolding build_tls_config
  build_tls_config-HoldsPair c name t e =
      both_blocks c.tls_cert_file c.tls_key_file c.tls_ca_cert
        (if is_empty c.tls_server_name then name else c.tls_server_name) false t _ refl e
