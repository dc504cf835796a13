-- ===== src/Config/Agree.antt =====
-- config.go: LoadTLSConfig and buildTLSConfig read the same files in the same way.
use eamqp.Base.{
  ℕ, ◌≡◌, refl, ap, ◌∙◌, Bool, false, ◌&&◌, none, some, [], ◌∷◌, Result, ok, err, if◌then◌else◌,
}
use eamqp.Text.{Text, is_empty}
use eamqp.Config.{Config, TlsConfig}
use eamqp.Config.Tls.{
  CryptoLibrary, TlsFiles, certified, rooted, with_certificate, with_roots, key_pair_set,
  with_key_pair, root_cas_set, with_authorities, some_config, load_tls_config, build_tls_config,
}

-- Another server name, and another flag.
abbrev pub relabel : Text → Bool → TlsConfig → TlsConfig
relabel name flag t = record t { server_name = name; insecure_skip_verify = flag }

abbrev pub relabeled : Text → Bool → Result TlsConfig → Result TlsConfig
relabeled name flag (err e) = err e
relabeled name flag (ok t) = ok (relabel name flag t)

-- The files that a configuration names.
abbrev pub files_of : Config → Bool → TlsFiles
files_of c flag = record {
  cert_file = c.tls_cert_file;
  key_file = c.tls_key_file;
  ca_cert = c.tls_ca_cert;
  insecure = flag;
}

module _ {W : Type 0} (crypto : CryptoLibrary W) (w : W) (name : Text) (flag : Bool) where
  certified-relabel :
      (t : TlsConfig) (r : Result ℕ)
      → certified crypto w r (relabel name flag t) ≡ relabeled name flag (certified crypto w r t)
  unfolding certified
  certified-relabel t (ok k) = refl
  certified-relabel t (err e) = refl

  with_certificate-relabel :
      (cert key : Text) (t : TlsConfig)
      → with_certificate crypto w cert key (relabel name flag t)
        ≡ relabeled name flag (with_certificate crypto w cert key t)
  unfolding with_certificate
  with_certificate-relabel [] [] t = refl
  with_certificate-relabel [] (y ∷ key) t = refl
  with_certificate-relabel (x ∷ cert) [] t = refl
  with_certificate-relabel (x ∷ cert) (y ∷ key) t = certified-relabel t _

  rooted-relabel :
      (t : TlsConfig) (r : Result ℕ)
      → rooted crypto w r (relabel name flag t) ≡ relabeled name flag (rooted crypto w r t)
  unfolding rooted
  rooted-relabel t (ok k) = refl
  rooted-relabel t (err e) = refl

  with_roots-relabel :
      (ca : Text) (r : Result TlsConfig)
      → with_roots crypto w ca (relabeled name flag r)
        ≡ relabeled name flag (with_roots crypto w ca r)
  unfolding with_roots
  with_roots-relabel ca (err e) = refl
  with_roots-relabel [] (ok t) = refl
  with_roots-relabel (x ∷ ca) (ok t) = rooted-relabel t _

module _ {W : Type 0} (crypto : CryptoLibrary W) (w : W) where
  key_pair_set-certified :
      (r : Result ℕ) (t : TlsConfig) → key_pair_set crypto w r t ≡ certified crypto w r t
  unfolding key_pair_set certified
  key_pair_set-certified (ok k) t = refl
  key_pair_set-certified (err e) t = refl

  with_key_pair-certificate :
      (cert key ca : Text) (flag : Bool) (t : TlsConfig)
      → with_key_pair crypto w
          (record { cert_file = cert; key_file = key; ca_cert = ca; insecure = flag })
          t
        ≡ with_certificate crypto w cert key t
  unfolding with_key_pair with_certificate
  with_key_pair-certificate [] [] ca flag t = refl
  with_key_pair-certificate [] (y ∷ key) ca flag t = refl
  with_key_pair-certificate (x ∷ cert) [] ca flag t = refl
  with_key_pair-certificate (x ∷ cert) (y ∷ key) ca flag t = key_pair_set-certified _ t

  root_cas_set-rooted :
      (r : Result ℕ) (t : TlsConfig) → root_cas_set crypto w r t ≡ rooted crypto w r t
  unfolding root_cas_set rooted
  root_cas_set-rooted (ok k) t = refl
  root_cas_set-rooted (err e) t = refl

  with_authorities-roots :
      (cert key ca : Text) (flag : Bool) (r : Result TlsConfig)
      → with_authorities crypto w
          (record { cert_file = cert; key_file = key; ca_cert = ca; insecure = flag })
          r
        ≡ with_roots crypto w ca r
  unfolding with_authorities with_roots
  with_authorities-roots cert key ca flag (err e) = refl
  with_authorities-roots cert key [] flag (ok t) = refl
  with_authorities-roots cert key (x ∷ ca) flag (ok t) = root_cas_set-rooted _ t

  -- For the same files, LoadTLSConfig and the configuration's buildTLSConfig give the same result, the
  -- error included, but for the server name and the flag that skips verification; except that, where
  -- no file is named at all, LoadTLSConfig gives no configuration.
  pub load_tls_config-eq-build :
      (c : Config) (name : Text) (flag : Bool)
      → load_tls_config crypto w (some (files_of c flag)) ≡ (
          if is_empty c.tls_cert_file && is_empty c.tls_key_file && is_empty c.tls_ca_cert
          then ok none
          else some_config crypto w (relabeled [] flag (build_tls_config crypto w c name)))
  unfolding load_tls_config build_tls_config
  load_tls_config-eq-build c name flag =
      let server = if is_empty c.tls_server_name then name else c.tls_server_name in
      let t : TlsConfig = record {
        server_name = server;
        certificates = [];
        root_cas = none;
        insecure_skip_verify = false;
      } in
      let bare : TlsConfig = record {
        server_name = [];
        certificates = [];
        root_cas = none;
        insecure_skip_verify = flag;
      } in
      let own =
        with_authorities-roots c.tls_cert_file c.tls_key_file c.tls_ca_cert flag
          (with_key_pair crypto w (files_of c flag) bare)
        ∙ ap (with_roots crypto w c.tls_ca_cert)
            (with_key_pair-certificate c.tls_cert_file c.tls_key_file c.tls_ca_cert flag bare) in
      let e =
        ap (with_roots crypto w c.tls_ca_cert)
          (with_certificate-relabel crypto w [] flag c.tls_cert_file c.tls_key_file t)
        ∙ with_roots-relabel crypto w [] flag c.tls_ca_cert
            (with_certificate crypto w c.tls_cert_file c.tls_key_file t) in
      rw (own ∙ e) refl
