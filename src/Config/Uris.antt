-- ===== src/Config/Uris.antt =====
-- config.go, parseURIs.
use eamqp.Base.{List, [], ◌∷◌, Result, ok, err, uri_parse, no_valid_uris, if◌then◌else◌}
use eamqp.Text.{Text, is_empty, split, trim}
use eamqp.Config.{Config, Uri, UriLibrary}
use eamqp.Config.Redact.{UrlLibrary, redact_uri}

-- The value from the configuration, if it gives one.
abbrev pub override : Text → Text → Text
override given old = if is_empty given then old else given

unfoldable pub overridden : Config → Uri → Uri
overridden c u = record u {
  vhost = override c.vhost u.vhost;
  username = override c.username u.username;
  password = override c.password u.password;
}

module _ (urls : UrlLibrary) (uris : UriLibrary) where
  unfoldable pub add_parsed : Uri → Result (List Uri) → Result (List Uri)
  add_parsed u (err e) = err e
  add_parsed u (ok us) = ok (u ∷ us)

  -- One URI, and then the rest of the loop.
  unfoldable pub parsed_first : Config → Text → Result Uri → Result (List Uri) → Result (List Uri)
  unfolding add_parsed
  parsed_first c addr (err e) rest =
      err (uri_parse (redact_uri urls addr) (redact_uri urls (uris.error_text e)))
  parsed_first c addr (ok u) rest = add_parsed (overridden c u) rest

  -- The loop over what is between the commas.
  unfoldable pub parse_each : Config → List Text → Result (List Uri)
  unfolding parsed_first
  parse_each c [] = ok []
  parse_each c (part ∷ parts) =
      let rest = parse_each c parts in
      if is_empty (trim part)
      then rest
      else parsed_first c (trim part) (uris.parse (trim part)) rest

  abbrev pub some_valid : Result (List Uri) → Result (List Uri)
  some_valid (err e) = err e
  some_valid (ok []) = err no_valid_uris
  some_valid (ok (u ∷ us)) = ok (u ∷ us)

  unfoldable pub parse_uris : Config → Result (List Uri)
  unfolding parse_each
  parse_uris c = some_valid (parse_each c (split b',' c.addr))
