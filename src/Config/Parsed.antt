-- ===== src/Config/Parsed.antt =====
-- config.go, parseURIs: what it accepts, and what it answers otherwise.
use eamqp.Base.{
  ◌<◌, ◌≡◌, refl, ap, ◌⊎◌, inl, inr, List, [], ◌∷◌, ◌++◌, Error, Result, ok, err, uri_parse,
  no_valid_uris, arith, length, Bool-cases, if◌then◌else◌,
}
use eamqp.Text.{Text, is_empty, split, trim}
use eamqp.Config.{Config, Uri, UriLibrary}
use eamqp.Config.Redact.{UrlLibrary, redact_uri}
use eamqp.Config.Uris.{
  override, overridden, add_parsed, parsed_first, parse_each, some_valid, parse_uris,
}

-- What is not blank, without the spaces around it.
unfoldable pub nonblank : List Text → List Text
nonblank [] = []
nonblank (p ∷ ps) = let rest = nonblank ps in if is_empty (trim p) then rest else trim p ∷ rest

-- The addresses between the commas.
abbrev pub addresses : Text → List Text
addresses addr = nonblank (split b',' addr)

module _ (urls : UrlLibrary) (uris : UriLibrary) (c : Config) where
  -- An empty setting leaves what the URI has; any other takes its place.
  abbrev pub Overrides : Text → Text → Text → Type 0
  Overrides [] old new = new ≡ old
  Overrides (x ∷ given) old new = new ≡ x ∷ given

  -- The address's URI, with what the configuration overrides, and otherwise as it is.
  abbrev pub Reads : Text → Uri → Type 0
  Reads a u =
      (v : Uri) × (uris.parse a ≡ ok v)
      × (u.host ≡ v.host)
      × (u.others ≡ v.others)
      × Overrides c.vhost v.vhost u.vhost
      × Overrides c.username v.username u.username
      × Overrides c.password v.password u.password

  override-Overrides : (given old : Text) → Overrides given old (override given old)
  override-Overrides [] old = refl
  override-Overrides (x ∷ given) old = refl

  overridden-Reads : (a : Text) (v : Uri) → uris.parse a ≡ ok v → Reads a (overridden c v)
  unfolding overridden
  overridden-Reads a v p = (
    v,
    p,
    refl,
    refl,
    override-Overrides c.vhost v.vhost,
    override-Overrides c.username v.username,
    override-Overrides c.password v.password,
  )

  abbrev pub AllRead : List Text → List Uri → Type 0
  AllRead [] [] = Unit {0}
  AllRead (a ∷ xs) (u ∷ us) = Reads a u × AllRead xs us
  AllRead _ _ = ⊥

  -- The first address that cannot be parsed, and the error for it.
  abbrev pub Fails : List Text → Error → Type 0
  Fails xs e =
      (before : List Text) × (bad : Text) × (after : List Text) × (us : List Uri) × (x : Error)
      × (xs ≡ before ++ bad ∷ after)
      × AllRead before us
      × (uris.parse bad ≡ err x)
      × (e ≡ uri_parse (redact_uri urls bad) (redact_uri urls (uris.error_text x)))

  abbrev Explains : List Text → Result (List Uri) → Type 0
  Explains xs (ok us) = AllRead xs us
  Explains xs (err e) = Fails xs e

  -- Every address is read, and there is one; or the result is the error for the first that fails, or
  -- for there being none.
  abbrev pub IsParsed : List Text → Result (List Uri) → Type 0
  IsParsed xs (ok us) = (0 < length us) × AllRead xs us
  IsParsed xs (err e) = Fails xs e ⊎ ((xs ≡ []) × (e ≡ no_valid_uris))

  add_parsed-Explains :
      (a : Text) (xs : List Text) (v : Uri) (r : Result (List Uri))
      → uris.parse a ≡ ok v
      → Explains xs r
      → Explains (a ∷ xs) (add_parsed urls uris (overridden c v) r)
  unfolding add_parsed
  add_parsed-Explains a xs v (ok us) p h = (overridden-Reads a v p, h)
  add_parsed-Explains a xs v (err e) p (before, bad, after, us, x, eq, all, fails, h) = (
    a ∷ before,
    bad,
    after,
    overridden c v ∷ us,
    x,
    ap (λ l. a ∷ l) eq,
    (overridden-Reads a v p, all),
    fails,
    h,
  )

  first-Explains :
      (a : Text) (xs : List Text) (p : Result Uri) (r : Result (List Uri))
      → uris.parse a ≡ p
      → Explains xs r
      → Explains (a ∷ xs) (parsed_first urls uris c a p r)
  unfolding parsed_first
  first-Explains a xs (ok v) r h e = add_parsed-Explains a xs v r h e
  first-Explains a xs (err x) r h e = ([], a, xs, [], x, refl, tt, h, refl)

  each-Explains : (parts : List Text) → Explains (nonblank parts) (parse_each urls uris c parts)
  unfolding parse_each nonblank
  each-Explains [] = tt
  each-Explains (p ∷ ps) = elim (Bool-cases (is_empty (trim p))) [
    | inl blank ↦ rw blank (each-Explains ps)
    | inr there ↦ rw there (
        first-Explains (trim p) (nonblank ps) (uris.parse (trim p)) (parse_each urls uris c ps) refl
          (each-Explains ps))
  ]

  some_valid-IsParsed :
      (xs : List Text) (r : Result (List Uri))
      → Explains xs r
      → IsParsed xs (some_valid urls uris r)
  some_valid-IsParsed [] (ok []) h = inr (refl, refl)
  some_valid-IsParsed (a ∷ xs) (ok []) h = absurd h
  some_valid-IsParsed xs (ok (u ∷ us)) h = (omega arith, h)
  some_valid-IsParsed xs (err e) h = inl h

  -- parseURIs reads the addresses between the commas of Addr, blank ones left out, in their order. It
  -- returns the URI of each, with the virtual host, user name and password of the configuration where
  -- it gives them, and at least one; or the error for the first address that cannot be parsed, which
  -- holds that address and the reason only as redactAMQPURI leaves them; or, without any address, the
  -- error that there is none.
  pub parse_uris-IsParsed : IsParsed (addresses c.addr) (parse_uris urls uris c)
  unfolding parse_uris
  parse_uris-IsParsed =
      some_valid-IsParsed (addresses c.addr) (parse_each urls uris c (split b',' c.addr))
        (each-Explains (split b',' c.addr))

  IsParsed-length :
      (xs : List Text) (r : Result (List Uri)) (us : List Uri)
      → IsParsed xs r
      → r ≡ ok us
      → 0 < length us
  IsParsed-length xs (ok us') us h e = ground arith
  IsParsed-length xs (err x) us h e = ground arith

  pub parse_uris-length : (us : List Uri) → parse_uris urls uris c ≡ ok us → 0 < length us
  parse_uris-length us e =
      IsParsed-length (addresses c.addr) (parse_uris urls uris c) us parse_uris-IsParsed e
