-- ===== src/Examples/PoolUse.antt =====
-- examples/connection-pool/main.go: channels of a pool, each taken, used once and given back. The
-- twenty goroutines of the program do so concurrently.
use eamqp.Base.{ℕ, suc, ◌++◌, Result, ok, err}
use eamqp.Text.{Text, codes}
use eamqp.Amqp.Values.{Publishing}
use eamqp.Amqp.Raw.{Raw}
use eamqp.Channel.{Channel, close}
use eamqp.Observability.{digits}
use eamqp.Examples.Program.{Host, declare_direct, json, try_publish}

abbrev plain : ℕ → Text → Publishing
plain mode body = record (json body) { content_type = "text/plain"; delivery_mode = mode }

module _ {S : Type 0} (raw : Raw S) (host : Host S) where
  given_back {ℓ} : {A : Type ℓ} → A × Channel S × S → S
  given_back (a, ch, s) = let (e, ch', s') = close raw ch s in s'

  publish_and_close : Publishing → Result (Channel S) × S → S
  unfolding given_back
  publish_and_close msg (err e, s) = s
  publish_and_close msg (ok ch, s) = given_back (try_publish raw "pool.ex" "pool.test" msg ch s)

  -- One of the goroutines: NewChannel, Publish, and the deferred Close.
  unfoldable pub use_pool : host.Handle → ℕ → S → S
  unfolding publish_and_close
  use_pool client i s =
      publish_and_close (plain 2 (codes "{\"channel\": " ++ digits (suc i) i ++ codes "}"))
        (host.new_channel client s)

  -- AcquireChannel, whose release function closes the channel; a delivery mode of 0 is left unset.
  unfoldable pub use_acquired : host.Handle → S → S
  unfolding publish_and_close
  use_acquired client s =
      publish_and_close (plain 0 (codes "hello from acquire")) (host.acquire_channel client s)

  declared : Result (Unit {0}) × Channel S × S → Result (Unit {0}) × S
  declared (err e, ch, s) = (err e, s)
  declared (ok u, ch, s) = let (e, ch', s') = close raw ch s in (ok u, s')

  -- The topology, on a channel that is closed before the pool is used.
  unfoldable pub declare_on : Result (Channel S) × S → Result (Unit {0}) × S
  unfolding declared
  declare_on (err e, s) = (err e, s)
  declare_on (ok ch, s) = declared (declare_direct raw "pool.ex" "pool.queue" "pool.test" ch s)
