-- ===== src/Client/Lent/Ended.antt =====
-- client.go, pool.go and channel.go together: a channel from NewChannel of a client in pool mode, used
-- by any methods and closed.
use eamqp.Base.{
  ℕ, ◌^◌, ◌<◌, ◌≡◌, refl, Bool, true, false, Option, none, some, List, Error, Result, ok, err,
  Outcome, returns, panics, arith, if◌then◌else◌,
}
use eamqp.Amqp.{Amqp, ChannelOptions}
use eamqp.Amqp.Raw.{Raw, Metric}
use eamqp.Pool.Steps.{Turn}
use eamqp.Connections.{ConnectionPool, Acquired, lease, refused, blocks}
use eamqp.Channel.{Channel, ClientView, close, new_channel_with_release}
use eamqp.Channel.Calls.{Call, invoke_all, any_changes}
use eamqp.Channel.Session.{close-invoke_all}
use eamqp.Channel.Beside.{beside}
use eamqp.Channel.Beside.Untouched.{invoke_all-beside}
use eamqp.Client.{Client, Opened, pooled, new_channel, new_from, from_pool, taken}
use eamqp.Client.{leased as leased_by}
use eamqp.Client.Wrapped.{wrapped, on_release, on_discard}
use eamqp.Client.Lent.{IsStocked, Restores, RestoresAfter, acquire_from_pool-RestoresAfter}

module _ (n : ℕ) (k : ℕ → ℕ) {W : Type 0} (amqp : Amqp W) (record_metric : Metric → W → W)
    (small : n < 2 ^ 63) (opts : ChannelOptions W) (t : Turn) (raw : Raw W) (view : ClientView)
    (calls : List Call) where
  unfoldable pub used :
      Option (Result (Channel (ConnectionPool × W))) → ConnectionPool × W → ConnectionPool × W
  used none s = s
  used (some (err e)) s = s
  used (some (ok ch)) s =
      let (ch', s') = invoke_all (beside raw) calls ch s in (close (beside raw) ch' s').2

  -- What is left once the holder of NewChannel's result has made its calls and closed it.
  abbrev pub used_and_closed : Outcome Opened → ConnectionPool × W → ConnectionPool × W
  used_and_closed panics s = s
  used_and_closed (returns o) s = used (wrapped amqp record_metric view o) s

  if_either :
      (b : Bool) (x y : ConnectionPool × W)
      → IsStocked n k x.0.channel_pools
      → IsStocked n k y.0.channel_pools
      → IsStocked n k (if b then x else y).0.channel_pools
  if_either true x y hx hy = hx
  if_either false x y hx hy = hy

  pooled-IsStocked :
      (i c : ℕ) (p : ConnectionPool) (w : W)
      → Restores n k amqp record_metric (lease i c) p
      → IsStocked n k (used_and_closed (returns (pooled i c)) (p, w)).0.channel_pools
  unfolding used wrapped
  pooled-IsStocked i c p w r =
      let r_ = on_release amqp record_metric i c in
      let d_ = on_discard amqp record_metric i c in
      let ch = new_channel_with_release c (some view) r_ d_ in
      let ended = close-invoke_all (beside raw) c r_ d_ (some view) calls (p, w) in
      let s' = (invoke_all (beside raw) calls ch (p, w)).1 in
      let kept = invoke_all-beside raw calls ch (p, w) in
      let r' : Restores n k amqp record_metric (lease i c) s'.0 = rw kept r in
      rw ended.1 (if_either (any_changes calls) (d_ s') (r_ s') (r' s'.1).1 (r' s'.1).0)

  -- The client has a pool whose slots are as stocked as they were once the lease has ended.
  abbrev pub IsRestored : Outcome Opened × Client × W → Type 0
  IsRestored (o, c, w) =
      (p : ConnectionPool) × (c.pool ≡ some p)
      × IsStocked n k (used_and_closed o (p, w)).0.channel_pools

  taken-IsRestored :
      (wrap : Error → Error) (c : Client) (r : Outcome Acquired × ConnectionPool × W)
      → RestoresAfter n k amqp record_metric small opts t r
      → IsRestored (taken amqp opts record_metric wrap c r)
  unfolding taken leased_by used wrapped
  taken-IsRestored wrap c (panics, p, w) h = (p, refl, h)
  taken-IsRestored wrap c (returns (refused e), p, w) h = (p, refl, h)
  taken-IsRestored wrap c (returns (blocks i), p, w) h = (p, refl, h)
  taken-IsRestored wrap c (returns (lease i ch), p, w) h = (p, refl, pooled-IsStocked i ch p _ h)

  from_pool-IsRestored :
      (wrap : Error → Error) (missing : Error) (pool : Option ConnectionPool) (c : Client)
      (p : ConnectionPool) (w : W)
      → pool ≡ some p
      → IsStocked n k p.channel_pools
      → IsRestored (from_pool amqp opts record_metric wrap missing t pool c w)
  unfolding from_pool
  from_pool-IsRestored wrap missing none c p w e s = absurd (ground arith)
  from_pool-IsRestored wrap missing (some q) c p w e s =
      let same : q ≡ p = ground arith in
      taken-IsRestored wrap c _
        (acquire_from_pool-RestoresAfter n k amqp record_metric small opts t q w (rw same s))

  either_IsRestored :
      (b : Bool) (x y : Outcome Opened × Client × W)
      → IsRestored x
      → IsRestored y
      → IsRestored (if b then x else y)
  either_IsRestored true x y hx hy = hx
  either_IsRestored false x y hx hy = hy

  new_from-IsRestored :
      (conn : Option ℕ) (c : Client) (p : ConnectionPool) (w : W)
      → conn ≡ none
      → c.pool ≡ some p
      → IsStocked n k p.channel_pools
      → IsRestored (new_from amqp opts record_metric t conn c w)
  unfolding new_from
  new_from-IsRestored (some conn) c p w h in_pool s = absurd (ground arith)
  new_from-IsRestored none c p w h in_pool s = from_pool-IsRestored _ _ c.pool c p w in_pool s

  -- A channel from NewChannel of a client in pool mode, used by any methods, in any order and
  -- with any outcome, and then closed, leaves every slot's channel pool as stocked as it was:
  -- with k i channels of slot i leased before, k i are leased after, each leased and each idle
  -- channel has its permit, and `active` is the number of permits. The same holds where
  -- NewChannel returns an error, panics or blocks. (The pools' size is below 2^63; no other
  -- goroutine uses the client meanwhile.)
  pub new_channel-IsRestored :
      (c : Client) (p : ConnectionPool) (w : W)
      → c.conn ≡ none
      → c.pool ≡ some p
      → IsStocked n k p.channel_pools
      → IsRestored (new_channel amqp opts record_metric t c w)
  unfolding new_channel used wrapped
  new_channel-IsRestored c p w single in_pool s =
      either_IsRestored c.closed _ _ (p, in_pool, s)
        (new_from-IsRestored c.conn c p w single in_pool s)
