-- ===== src/Connections.antt =====
-- pool.go, type ConnectionPool: several connections, each with its channel pool, used in turn.
pub mod Dial
pub mod Slots
pub mod RoundRobin
pub mod Dialling
pub mod Leaks
pub mod Shutdown
use eamqp.Base.{
  ℕ, zero, suc, ◌+◌, ◌%◌, ◌^◌, ◌≡◌, Bool, true, false, not, ◌&&◌, Option, none, some, List, [], ◌∷◌,
  Error, Result, Outcome, ok, err, returns, panics, connections_closed, no_connections,
  no_channel_pools, connection_unavailable, channel_pool_unavailable, channel_options,
  connect_failed, ltb, leb, ◌==◌, if◌then◌else◌, length, get_elem?, set, replicate,
}
use eamqp.Base.Int.{ℤ, pos, negsuc, pos_part, leb_ℤ, ltb_ℤ, of_int32, to_int32, rem_ℤ}
use eamqp.Amqp.{Amqp, ChannelOptions}
use eamqp.Pool.{ChannelPool, PoolConfig, new_channel_pool, add_one, is_nonpositive, close_quietly}
use eamqp.Pool.Steps.{Pc, leased, failed, waiting, Turn}
use eamqp.Pool.Acquire.{acquire}

-- `current` is an int32 bit pattern; `total`, `errors` and `reconnects` are int64 ones. A nil slot is
-- `none`.
pub record ConnectionPool : Type 0 where
  pub connections : List (Option ℕ)
  pub channel_pools : List (Option ChannelPool)
  pub closed : Bool
  pub current : ℕ
  pub total : ℕ
  pub errors : ℕ
  pub reconnects : ℕ

-- The number of slots for a configured size and a number of URIs.
abbrev pub slots : ℤ → ℕ → ℕ
slots size uris =
    let s = if leb_ℤ size (pos 0) then pos uris else size in
    if ltb_ℤ (pos uris) s && ltb 0 uris then uris else pos_part s

unfoldable pub new_connection_pool : ℤ → ℕ → ConnectionPool
new_connection_pool size uris = record {
  connections = replicate (slots size uris) none;
  channel_pools = replicate (slots size uris) none;
  closed = false;
  current = 0;
  total = 0;
  errors = 0;
  reconnects = 0;
}

-- atomic.AddInt32(&p.current, 1)
abbrev pub advance_current : ConnectionPool → ConnectionPool
advance_current p = record p { current = (p.current + 1) % 2 ^ 32 }

-- int(current % int32(n)), and the division's own panic.
unfoldable pub index_of : ℕ → ℕ → Outcome ℤ
index_of current n =
    let d = of_int32 (to_int32 n) in
    if pos_part d == 0 then panics else returns (rem_ℤ (of_int32 current) (pos_part d))

unfoldable pub len : ConnectionPool → ℕ
len p = length p.connections

-- GetConnection: nil out of range.
unfoldable pub get_connection : ConnectionPool → ℤ → Option ℕ
get_connection p (negsuc i) = none
get_connection p (pos i) = elim (get_elem? p.connections i) [ none ↦ none | some c ↦ c ]

pub increment_reconnects : ConnectionPool → ConnectionPool
increment_reconnects p = record p { reconnects = add_one p.reconnects }

pub increment_errors : ConnectionPool → ConnectionPool
increment_errors p = record p { errors = add_one p.errors }

pub record PoolStats : Type 0 where
  pub connections_active : ℕ
  pub connections_total : ℕ
  pub channels_active : ℕ
  pub channels_acquired : ℕ
  pub channels_returned : ℕ
  pub reconnects : ℕ

pub channel_pool_stats : ChannelPool → PoolStats
channel_pool_stats p = record {
  connections_active = 0;
  connections_total = 0;
  channels_active = p.active;
  channels_acquired = p.acquired;
  channels_returned = p.returned;
  reconnects = 0;
}

-- The sum over the channel pools, on 64-bit integers.
unfoldable pub sum_stats : List (Option ChannelPool) → PoolStats → PoolStats
unfolding channel_pool_stats
sum_stats [] acc = acc
sum_stats (none ∷ ps) acc = sum_stats ps acc
sum_stats (some p ∷ ps) acc =
    let s = channel_pool_stats p in
    sum_stats ps (record acc {
      channels_active = (acc.channels_active + s.channels_active) % 2 ^ 64;
      channels_acquired = (acc.channels_acquired + s.channels_acquired) % 2 ^ 64;
      channels_returned = (acc.channels_returned + s.channels_returned) % 2 ^ 64;
    })

-- What AcquireFromPool returns: an error, a raw channel with the channel pool that its release and
-- discard go to, or nothing yet, since that pool blocks.
pub data Acquired : Type 0 where
  lease : ℕ → ℕ → Acquired
  refused : Error → Acquired
  blocks : ℕ → Acquired

unfoldable pub outcome : ℕ → Pc → Acquired
outcome i (leased c) = lease i c
outcome i (failed e) = refused e
outcome i pc = blocks i

module _ {W : Type 0} (amqp : Amqp W) (opts : ChannelOptions W) where
  unfoldable pub count_open : List (Option ℕ) → W → ℕ
  count_open [] w = 0
  count_open (none ∷ cs) w = count_open cs w
  count_open (some c ∷ cs) w =
      if amqp.connection_is_closed c w then count_open cs w else suc (count_open cs w)

  unfoldable pub stats : ConnectionPool → W → PoolStats
  unfolding count_open sum_stats
  stats p w =
      let sums = sum_stats p.channel_pools (record {
        connections_active = 0;
        connections_total = 0;
        channels_active = 0;
        channels_acquired = 0;
        channels_returned = 0;
        reconnects = 0;
      }) in
      record sums {
        connections_active = count_open p.connections w;
        connections_total = p.total;
        reconnects = p.reconnects;
      }

  -- AcquireFromPool on the chosen slot.
  unfoldable pub use_slot :
      Turn → ℕ → Option ChannelPool → ConnectionPool → W → Outcome Acquired × ConnectionPool × W
  unfolding outcome
  use_slot t i none p w = (returns (refused (channel_pool_unavailable i)), p, w)
  use_slot t i (some cp) p w =
      let (pc, cp', w') = acquire amqp opts t cp w in
      (returns (outcome i pc), record p { channel_pools = set p.channel_pools i (some cp') }, w')

  unfoldable pub use_found :
      Turn
      → ℕ
      → Option (Option ChannelPool)
      → ConnectionPool
      → W
      → Outcome Acquired × ConnectionPool × W
  use_found t i none p w = (panics, p, w)
  use_found t i (some slot) p w = use_slot t i slot p w

  unfoldable pub at_index :
      Turn → Outcome ℤ → ConnectionPool → W → Outcome Acquired × ConnectionPool × W
  unfolding use_slot use_found
  at_index t panics p w = (panics, p, w)
  at_index t (returns (negsuc i)) p w = (panics, p, w)
  at_index t (returns (pos i)) p w = use_found t i (get_elem? p.channel_pools i) p w

  unfoldable pub acquire_from_pool :
      Turn → ConnectionPool → W → Outcome Acquired × ConnectionPool × W
  unfolding at_index
  acquire_from_pool t p w =
      let n = length p.channel_pools in
      if p.closed
      then (returns (refused connections_closed), p, w)
      else if n == 0
      then (returns (refused no_channel_pools), p, w)
      else let q = advance_current p in at_index t (index_of q.current n) q w

  -- AcquireChannel on the chosen slot: a new channel, past the channel pool.
  configure_fresh : ChannelOptions W → ℕ → W → Result ℕ × W
  configure_fresh none c w = (ok c, w)
  configure_fresh (some f) c w = elim (f c w).0 [
    | none ↦ (ok c, (f c w).1)
    | some e ↦ (err (channel_options e), close_quietly amqp (some c) (f c w).1)
  ]

  open_fresh : Result ℕ × W → Result ℕ × W
  unfolding configure_fresh
  open_fresh (err e, w) = (err e, w)
  open_fresh (ok c, w) = configure_fresh opts c w

  fresh_slot : ℕ → Option ℕ → W → Result ℕ × W
  unfolding open_fresh
  fresh_slot i none w = (err (connection_unavailable i), w)
  fresh_slot i (some c) w =
      if amqp.connection_is_closed c w
      then (err (connection_unavailable i), w)
      else open_fresh (amqp.open_channel c w)

  fresh_found : ℕ → Option (Option ℕ) → ConnectionPool → W → Outcome (Result ℕ) × ConnectionPool × W
  fresh_found i none p w = (panics, p, w)
  fresh_found i (some slot) p w = let (r, w') = fresh_slot i slot w in (returns r, p, w')

  fresh_at : Outcome ℤ → ConnectionPool → W → Outcome (Result ℕ) × ConnectionPool × W
  unfolding fresh_slot fresh_found
  fresh_at panics p w = (panics, p, w)
  fresh_at (returns (negsuc i)) p w = (panics, p, w)
  fresh_at (returns (pos i)) p w = fresh_found i (get_elem? p.connections i) p w

  pub acquire_channel : ConnectionPool → W → Outcome (Result ℕ) × ConnectionPool × W
  unfolding fresh_at
  acquire_channel p w =
      let n = length p.connections in
      if p.closed
      then (returns (err connections_closed), p, w)
      else if n == 0
      then (returns (err no_connections), p, w)
      else let q = advance_current p in fresh_at (index_of q.current n) q w
