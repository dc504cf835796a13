-- ===== src/Base/Results.antt =====
-- Errors as values. A Go `error` that may be nil is `Option Error`; a pair of a value and an error is
-- a `Result`. `fault` is an error value made outside this repository (by amqp091-go, a context, the
-- file system, a handler), told apart by a number; the others are made by `fmt.Errorf` here, and
-- those that wrap another error (`%w`, `%s`) carry it.
use Prim.Native.Nat.{ℕ}
use mathlib.Core.Path.{◌≡◌, refl}
use mathlib.Core.List.{List}
use mathlib.Core.Logic.{◌⊎◌, inl, inr}

pub data Error : Type 0 where
  fault : ℕ → Error
  pool_closed connections_closed no_connections no_channel_pools : Error
  connection_unavailable channel_pool_unavailable : ℕ → Error
  channel_options : Error → Error
  channel_closed : Error
  connect_failed : Error → Error
  dial_failed : List ℕ → Error → Error
  client_closed pool_not_enabled no_connection client_nil connection_closed : Error
  open_failed acquire_failed ping_failed ping_canceled : Error → Error
  producer_nil confirmation_nil : Error
  bad_max_size : Error
  confirm_timeout : Error
  not_acknowledged : ℕ → Error
  workers_timeout : Error
  retries_exceeded : Error → Error
  retries_without_error : Error
  addr_required no_valid_uris : Error
  uri_parse : List ℕ → List ℕ → Error
  tls_pair : Error
  tls_parse_ca : List ℕ → Error
  tls_load tls_read_ca : Error → Error
  rpc_closed rpc_timeout : Error
  rpc_ack : Error → Error
  invalid_config start_failed : Error → Error
  working_directory : Error → Error
  config_not_found : Error
  usage : Error
  unknown_role : List ℕ → Error
  open_config : List ℕ → Error → Error
  unsupported_format : List ℕ → Error

pub data Result {ℓ} (A : Type ℓ) : Type ℓ where
  ok : A → Result A
  err : Error → Result A

-- A Go call that may panic.
pub data Outcome {ℓ} (A : Type ℓ) : Type ℓ where
  returns : A → Outcome A
  panics : Outcome A

pub Result-cases {ℓ} :
    {A : Type ℓ} (r : Result A) → ((a : A) × (r ≡ ok a)) ⊎ ((e : Error) × (r ≡ err e))
Result-cases (ok a) = inl (a, refl)
Result-cases (err e) = inr (e, refl)
