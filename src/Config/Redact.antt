-- ===== src/Config/Redact.antt =====
-- config.go, redactAMQPURI and redactAMQPAddress. net/url is a parameter.
use eamqp.Base.{ℕ, ◌+◌, Option, none, some, [], ◌∷◌, ◌++◌, map, take, ltb, if◌then◌else◌}
use eamqp.Text.{Text, codes, is_empty, split, join, trim, index, last_index, drop}

-- What the code uses of net/url: a parsed URL's user information, a name and perhaps a password;
-- `with_user` replaces it.
pub record UrlLibrary : Type 1 where
  pub Url : Type 0
  pub parse : Text → Option Url
  pub user : Url → Option (Text × Option Text)
  pub with_user : Text → Option Text → Url → Url
  pub print : Url → Text

abbrev pub mask : Text
mask = codes "xxxxx"

abbrev pub colon : ℕ
colon = b':'

abbrev pub at_sign : ℕ
at_sign = b'@'

abbrev pub scheme_end : Text
scheme_end = codes "://"

-- raw[lo:hi]
abbrev pub slice : ℕ → ℕ → Text → Text
slice lo hi raw = drop lo (take hi raw)

-- The branches on the position of a colon in the user information, between `e + 3` and `a`.
unfoldable pub redact_userinfo : Option ℕ → ℕ → ℕ → Text → Text
redact_userinfo (some c) e a raw =
    take (e + 3) raw
    ++ (take c (slice (e + 3) a raw) ++ (colon ∷ mask) ++ at_sign ∷ drop (a + 1) raw)
redact_userinfo none e a raw = take (e + 3) raw ++ (mask ++ at_sign ∷ drop (a + 1) raw)

unfoldable pub redact_between : Option ℕ → Option ℕ → Text → Text
unfolding redact_userinfo
redact_between (some e) (some a) raw =
    if ltb e a then redact_userinfo (index (colon ∷ []) (slice (e + 3) a raw)) e a raw else raw
redact_between _ _ raw = raw

-- What is left to do where net/url has found no user information.
unfoldable pub redact_plain : Text → Text
unfolding redact_between
redact_plain raw = redact_between (index scheme_end raw) (last_index at_sign raw) raw

module _ (urls : UrlLibrary) where
  -- The password is masked where there is one.
  masked : Option Text → Option Text
  masked none = none
  masked (some password) = some mask

  redact_parsed : urls.Url → Option (Text × Option Text) → Text → Text
  unfolding masked redact_plain
  redact_parsed u none raw = redact_plain raw
  redact_parsed u (some (name, password)) raw = urls.print (urls.with_user name (masked password) u)

  redact_result : Option urls.Url → Text → Text
  unfolding redact_parsed
  redact_result none raw = redact_plain raw
  redact_result (some u) raw = redact_parsed u (urls.user u) raw

  unfoldable pub redact_uri : Text → Text
  unfolding redact_result
  redact_uri raw = if is_empty raw then raw else redact_result (urls.parse raw) raw

  unfoldable pub redact_address : Text → Text
  unfolding redact_uri
  redact_address addr = join b',' (map (λ part. redact_uri (trim part)) (split b',' addr))
