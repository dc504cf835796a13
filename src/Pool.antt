-- ===== src/Pool.antt =====
-- pool.go, type ChannelPool: its state, and its operations that run without interruption. The
-- operations that other goroutines may interrupt are split into steps in Pool/Steps.
pub mod Steps
pub mod Accounting
pub mod Machine
pub mod Books
pub mod Permits
pub mod Exclusive
pub mod Acquire
pub mod Alone
pub mod Wakeup
pub mod Close
pub mod Release
pub mod Lease
use eamqp.Base.{
  ℕ, zero, suc, ◌+◌, ◌-◌, ◌%◌, ◌^◌, ◌≡◌, Bool, true, false, not, ◌&&◌, ◌||◌, Option, none, some,
  List, [], ◌∷◌, ◌++◌, Error, Result, ltb, leb, ◌==◌, if◌then◌else◌, length,
}
use eamqp.Base.Int.{ℤ, pos, pos_part, leb_ℤ, ltb_ℤ}
use eamqp.Amqp.{Amqp}

-- The fields of Config that a pool reads.
pub record PoolConfig : Type 0 where
  pub channel_pool_size : ℤ
  pub channel_pool_max_idle : ℤ

-- `idle` holds what is buffered in `channels`, oldest first, and `idle_cap` is that Go channel's
-- capacity; `has_channels` says that the field is not nil, `idle_closed` that the Go channel has been
-- closed. `limit` is the capacity of `permits`, `none` where that is nil, and `tokens` what it holds.
-- The four counters are int64 bit patterns.
pub record ChannelPool : Type 0 where
  pub conn : ℕ
  pub idle : List (Option ℕ)
  pub idle_cap : ℕ
  pub has_channels : Bool
  pub idle_closed : Bool
  pub limit : Option ℕ
  pub tokens : ℕ
  pub closed : Bool
  pub acquired : ℕ
  pub returned : ℕ
  pub created : ℕ
  pub active : ℕ

-- atomic.AddInt64(&x, 1).
abbrev pub add_one : ℕ → ℕ
add_one n = (n + 1) % 2 ^ 64

-- x - 1 on an int64.
abbrev pub sub_one : ℕ → ℕ
sub_one n = (n + (2 ^ 64 - 1)) % 2 ^ 64

-- x <= 0 on an int64.
abbrev pub is_nonpositive : ℕ → Bool
is_nonpositive n = n == 0 || leb (2 ^ 63) n

abbrev pub effective_size : ℤ → ℤ
effective_size size = if leb_ℤ size (pos 0) then pos 1 else size

abbrev pub effective_idle : ℤ → ℤ → ℤ
effective_idle max_idle size =
    let m = if leb_ℤ max_idle (pos 0) then size else max_idle in if ltb_ℤ size m then size else m

unfoldable pub new_channel_pool : ℕ → PoolConfig → ChannelPool
new_channel_pool conn cfg =
    let size = effective_size cfg.channel_pool_size in
    record {
      conn = conn;
      idle = [];
      idle_cap = pos_part (effective_idle cfg.channel_pool_max_idle size);
      has_channels = true;
      idle_closed = false;
      limit = some (pos_part size);
      tokens = 0;
      closed = false;
      acquired = 0;
      returned = 0;
      created = 0;
      active = 0;
    }

-- What a receive from the idle channel finds.
pub data Receive : Type 0 where
  blocked : Receive
  item : Option ℕ → List (Option ℕ) → Receive
  ended : Receive

-- The buffer of a closed Go channel is served before its end is seen.
receive_from : List (Option ℕ) → Bool → Receive
receive_from [] true = ended
receive_from [] false = blocked
receive_from (c ∷ rest) _ = item c rest

-- A receive through the snapshot that `Acquire` took; a nil channel is never ready.
pub receive : Bool → ChannelPool → Receive
unfolding receive_from
receive live p = if live then receive_from p.idle p.idle_closed else blocked

-- The select of `acquirePermit`: the permit, or `none`. With nil `permits` nothing limits it.
pub take_permit : Option ℕ → ChannelPool → Option ChannelPool
take_permit none p = some p
take_permit (some n) p = if ltb p.tokens n then some (record p { tokens = p.tokens + 1 }) else none

-- The select of `releasePermit`; `default` where no token is buffered.
pub drop_permit : Option ℕ → ChannelPool → ChannelPool
drop_permit none p = p
drop_permit (some n) p = if p.tokens == 0 then p else record p { tokens = p.tokens - 1 }

-- The addition to `active` that follows a permit.
unfoldable pub counted : Option ChannelPool → Option ChannelPool
counted none = none
counted (some p) = some (record p { active = add_one p.active })

-- `acquirePermit` with nothing in between.
pub acquire_permit : ChannelPool → Option ChannelPool
acquire_permit p = counted (take_permit p.limit p)

-- `releasePermit` with nothing in between: the first compare-and-swap succeeds.
pub release_permit : ChannelPool → ChannelPool
release_permit p =
    let q = drop_permit p.limit p in
    if is_nonpositive q.active then q else record q { active = sub_one q.active }

-- `case p.channels <- ch` is ready.
abbrev pub has_room : ChannelPool → Bool
has_room p = p.has_channels && ltb (length p.idle) p.idle_cap

module _ {W : Type 0} (amqp : Amqp W) where
  -- ch != nil && !ch.IsClosed()
  unfoldable pub is_usable : Option ℕ → W → Bool
  is_usable none w = false
  is_usable (some c) w = not (amqp.channel_is_closed c w)

  -- if ch != nil { ch.Close() }, the error dropped.
  unfoldable pub close_quietly : Option ℕ → W → W
  close_quietly none w = w
  close_quietly (some c) w = (amqp.close_channel c w).1
