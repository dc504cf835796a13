-- ===== src/Client/New/Started.antt =====
-- client.go, New: the client that it returns, or what it leaves behind where it fails.
use eamqp.Base.{
  ℕ, ◌≡◌, refl, ◌⊎◌, inl, inr, Option, none, some, List, Error, Result, Outcome, ok, err, returns,
  panics, arith,
}
use eamqp.Text.{Text}
use eamqp.Amqp.{Amqp}
use eamqp.Config.{Config, Uri, UriLibrary, validate}
use eamqp.Config.Redact.{UrlLibrary}
use eamqp.Config.Uris.{parse_uris}
use eamqp.Config.Tls.{CryptoLibrary}
use eamqp.Config.Build.{AmqpConfig, build_amqp_config}
use eamqp.Config.Parsed.{parse_uris-length}
use eamqp.Connections.Slots.{Closing, IsFilled}
use eamqp.Connections.Leaks.{OpensOnlyItsOwn}
use eamqp.Client.{Client}
use eamqp.Client.Dialled.{PoolIsFilled, IsRenewed, dial-IsRenewed}
use eamqp.Client.Kept.{Shut, IsHeld, DialKeeps, KeepsShut, dial-DialKeeps}
use eamqp.Client.New.{
  Options, ClientOption, applied, apply, no_options, fresh_client, logger_of, metrics_of, log_with,
  dial_result, dial_built, pool_dial, logged, dial_connection, started, start, validated,
  new_client,
}

module _ {W : Type 0} (amqp : Amqp W) where
  -- No panic. A client that is returned has all its connections, and no connection is open beside
  -- them; with an error no connection is open at all.
  abbrev pub IsNew : Closing amqp → ℕ → Outcome (Result Client) × W → Type 0
  IsNew laws d (returns (ok c), w) = (IsFilled c.conn ⊎ PoolIsFilled c.pool) × IsHeld amqp d w c
  IsNew laws d (returns (err e), w) = Shut amqp d w
  IsNew laws d (panics, w) = ⊥

  -- amqp.DialConfig opens no connection but the one that it returns.
  abbrev pub DialsOnlyItsOwn : (Text → AmqpConfig → W → Result ℕ × W) → Type 0
  DialsOnlyItsOwn f =
      (t : Text) (cfg : AmqpConfig) (w : W) (d : ℕ)
      → Shut amqp d w
      → ((f t cfg w).0 ≡ ok d) ⊎ Shut amqp d (f t cfg w).1

  module _ (urls : UrlLibrary) (uris : UriLibrary) (crypto : CryptoLibrary W)
      (dial_config : Text → AmqpConfig → W → Result ℕ × W) (own : DialsOnlyItsOwn dial_config) where
    OwnResult : ℕ → Result ℕ × W → Type 0
    OwnResult d r = (r.0 ≡ ok d) ⊎ Shut amqp d r.1

    dial_result-own :
        (u : Uri) (r : Result ℕ × W) (d : ℕ)
        → (r.0 ≡ ok d) ⊎ Shut amqp d r.1
        → ((dial_result urls uris crypto dial_config u r).0 ≡ ok d)
          ⊎ Shut amqp d (dial_result urls uris crypto dial_config u r).1
    unfolding dial_result
    dial_result-own u (ok c, w) d h = h
    dial_result-own u (err e, w) d (inl h) = ground arith
    dial_result-own u (err e, w) d (inr h) = inr h

    dial_built-own :
        (u : Uri) (b : Result AmqpConfig) (w : W) (d : ℕ)
        → Shut amqp d w
        → ((dial_built urls uris crypto dial_config u b w).0 ≡ ok d)
          ⊎ Shut amqp d (dial_built urls uris crypto dial_config u b w).1
    unfolding dial_built
    dial_built-own u (err e) w d h = inr h
    dial_built-own u (ok cfg) w d h =
        dial_result-own u (dial_config (uris.print u) cfg w) d (own (uris.print u) cfg w d h)

    pool_dial-own :
        (c : Config) (o : Options W)
        → OpensOnlyItsOwn amqp (pool_dial urls uris crypto dial_config c o)
    unfolding pool_dial
    pool_dial-own c o u w d h =
        dial_built-own u (build_amqp_config crypto w c u (some o.dialling)) w d h

    logged-own :
        (log : Option (Text → W → W)) (u : Uri) (r : Result ℕ × W) (d : ℕ)
        → KeepsShut amqp (log_with log)
        → (r.0 ≡ ok d) ⊎ Shut amqp d r.1
        → ((logged urls uris crypto dial_config log u r).0 ≡ ok d)
          ⊎ Shut amqp d (logged urls uris crypto dial_config log u r).1
    unfolding logged
    logged-own log u (ok c, w) d keeps (inl h) = inl h
    logged-own log u (ok c, w) d keeps (inr h) = inr (keeps _ d w h)
    logged-own log u (err e, w) d keeps h = h

    dial_connection-own :
        (c : Config) (o : Options W) (log : Option (Text → W → W))
        → KeepsShut amqp (log_with log)
        → OpensOnlyItsOwn amqp (dial_connection urls uris crypto dial_config c o log)
    unfolding dial_connection
    dial_connection-own c o log keeps u w d h =
        logged-own log u (pool_dial urls uris crypto dial_config c o u w) d keeps
          (pool_dial-own c o u w d h)

    logger-KeepsShut :
        (c : Config) (log : Option (Text → W → W))
        → KeepsShut amqp (log_with log)
        → KeepsShut amqp (log_with (logger_of c log))
    unfolding logger_of log_with
    logger-KeepsShut c none keeps t d w h = ground arith
    logger-KeepsShut c (some log) keeps t d w h = keeps t d w h

    module _ (laws : Closing amqp) (c : Config) (o : Options W) (d : ℕ)
        (logs : KeepsShut amqp (log_with o.logger))
        (records : KeepsShut amqp (metrics_of o.metrics)) where
      abbrev dials : Uri → W → Result ℕ × W
      dials = dial_connection urls uris crypto dial_config c o (logger_of c o.logger)

      abbrev pool_dials : Uri → W → Result ℕ × W
      pool_dials = pool_dial urls uris crypto dial_config c o

      started-IsNew :
          (r : Outcome (Option Error) × Client × W)
          → IsRenewed amqp o.channel_options (metrics_of o.metrics) laws r
          → DialKeeps amqp d r
          → IsNew laws d (started urls uris crypto dial_config r)
      unfolding started
      started-IsNew (returns none, k, w) (inl h) keeps = (h.1, keeps)
      started-IsNew (returns none, k, w) (inr (e, eq, n, down)) keeps = ground arith
      started-IsNew (returns (some e), k, w) h keeps = keeps
      started-IsNew (panics, k, w) h keeps = keeps

      start-IsNew :
          (w : W) → Shut amqp d w → IsNew laws d (start urls uris crypto dial_config amqp c o w)
      unfolding start
      start-IsNew w h =
          started-IsNew _
            (dial-IsRenewed amqp o.channel_options (metrics_of o.metrics) laws dials pool_dials
              (parse_uris urls uris c) (fresh_client c) w (parse_uris-length urls uris c) refl refl)
            (dial-DialKeeps amqp laws o.channel_options (metrics_of o.metrics) records d dials
              pool_dials
              (dial_connection-own c o (logger_of c o.logger) (logger-KeepsShut c o.logger logs))
              (pool_dial-own c o) (parse_uris urls uris c) (fresh_client c) w
              (parse_uris-length urls uris c) h)

    validated-IsNew :
        (laws : Closing amqp) (v : Option Error × Config) (opts : List (ClientOption W))
        (o : Options W) (d : ℕ) (w : W)
        → apply opts no_options ≡ returns o
        → KeepsShut amqp (log_with o.logger)
        → KeepsShut amqp (metrics_of o.metrics)
        → Shut amqp d w
        → IsNew laws d (validated urls uris crypto dial_config amqp v opts w)
    unfolding validated applied
    validated-IsNew laws (some e, c) opts o d w a logs records h = h
    validated-IsNew laws (none, c) opts o d w a logs records h =
        rw a (start-IsNew laws c o d logs records w h)

    -- Where no option panics, as WithOptions(nil) does, New does not panic. It returns a client that has
    -- a connection, or a pool with all its connections and channel pools, and then each connection that
    -- was closed, or not made, before is closed or in that client; or it returns an error, and then each
    -- such connection is closed. (DialConfig opens no connection but the one it returns, a closed
    -- connection stays closed, the options' logger and metrics open none, and there is memory for the
    -- channel pools.)
    pub new_client-IsNew :
        (laws : Closing amqp) (c : Config) (opts : List (ClientOption W)) (o : Options W) (d : ℕ)
        (w : W)
        → apply opts no_options ≡ returns o
        → KeepsShut amqp (log_with o.logger)
        → KeepsShut amqp (metrics_of o.metrics)
        → Shut amqp d w
        → IsNew laws d (new_client urls uris crypto dial_config amqp c opts w)
    unfolding new_client
    new_client-IsNew laws c opts o d w a logs records h =
        validated-IsNew laws (validate c) opts o d w a logs records h
