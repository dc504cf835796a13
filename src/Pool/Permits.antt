-- ===== src/Pool/Permits.antt =====
-- pool.go, ChannelPool under concurrent use: permits, leases and the `active` counter, over every
-- interleaving.
use eamqp.Base.{
  ℕ, ◌+◌, ◌^◌, ◌≤◌, ◌<◌, ◌≡◌, refl, true, none, some, List, [], arith, length, sum_by,
  sum_by-replicate, sum_by_mono, sum_by-agree, sum_by-zero, length-replicate, All,
}
use eamqp.Base.Int.{pos_part}
use eamqp.Amqp.{Amqp, ChannelOptions}
use eamqp.Pool.{PoolConfig, new_channel_pool, effective_size}
use eamqp.Pool.Steps.{Pc, checking, tallying, configuring, leased, failed, finished}
use eamqp.Pool.Accounting.{held, uncounted, unlowered, drains}
use eamqp.Pool.Machine.{System, Event, run, initial}
use eamqp.Pool.Books.{Inv, run-Inv}

-- The raw channels that a goroutine holds: at most one.
abbrev pub owns : Pc → ℕ
owns (checking (some c)) = 1
owns (tallying c) = 1
owns (configuring c) = 1
owns (leased c) = 1
owns _ = 0

abbrev pub leases : Pc → ℕ
leases (leased c) = 1
leases _ = 0

-- No call of the pool is under way in this goroutine; it may hold a channel.
abbrev pub IsResting : Pc → Type 0
IsResting (leased c) = Unit {0}
IsResting (failed e) = Unit {0}
IsResting finished = Unit {0}
IsResting _ = ⊥

-- Nor does it hold a channel.
abbrev pub IsOutside : Pc → Type 0
IsOutside (failed e) = Unit {0}
IsOutside finished = Unit {0}
IsOutside _ = ⊥

owns-le : (pc : Pc) → owns pc ≤ held pc
owns-le (checking none) = omega arith
owns-le (checking (some c)) = omega arith
owns-le pc = omega arith

resting-held : (pc : Pc) → IsResting pc → held pc ≡ leases pc
resting-held (leased c) h = refl
resting-held pc h = ground arith

resting-uncounted : (pc : Pc) → IsResting pc → uncounted pc ≡ 0
resting-uncounted (leased c) h = refl
resting-uncounted pc h = ground arith

resting-unlowered : (pc : Pc) → IsResting pc → unlowered pc ≡ 0
resting-unlowered (leased c) h = refl
resting-unlowered pc h = ground arith

outside-held : (pc : Pc) → IsOutside pc → held pc ≡ 0
outside-held (failed e) h = refl
outside-held pc h = ground arith

outside-uncounted : (pc : Pc) → IsOutside pc → uncounted pc ≡ 0
outside-uncounted (failed e) h = refl
outside-uncounted pc h = ground arith

outside-unlowered : (pc : Pc) → IsOutside pc → unlowered pc ≡ 0
outside-unlowered (failed e) h = refl
outside-unlowered pc h = ground arith

outside-drains : (pc : Pc) → IsOutside pc → drains pc ≡ 0
outside-drains (failed e) h = refl
outside-drains pc h = ground arith

module _ {W : Type 0} (amqp : Amqp W) (opts : ChannelOptions W) (conn : ℕ) (cfg : PoolConfig) where
  abbrev pub size : ℕ
  size = pos_part (effective_size cfg.channel_pool_size)

  initial-Inv : (w : W) (k : ℕ) → size + k < 2 ^ 63 → Inv size (initial conn cfg w k)
  unfolding initial new_channel_pool
  initial-Inv w k r = record {
    books = ground (
      arith,
      sum_by-replicate held k finished refl,
      sum_by-replicate uncounted k finished refl,
      sum_by-replicate unlowered k finished refl,
      sum_by-replicate drains k finished refl,
    );
    room = omega (arith, length-replicate k finished);
  }

  -- The pool after any events, begun new with `k` goroutines.
  abbrev pub after : W → ℕ → List (Event W) → System W
  after w k es = run amqp opts es (initial conn cfg w k)

  after-Inv : (w : W) (k : ℕ) (es : List (Event W)) → size + k < 2 ^ 63 → Inv size (after w k es)
  after-Inv w k es r = run-Inv size amqp opts es _ (initial-Inv w k r)

  -- In every interleaving of any number of calls of Acquire, release, discard and Close on a new
  -- channel pool, the raw channels buffered idle and those held by goroutines together never exceed the
  -- effective pool size, nor does the number of buffered permits. (The size and the number of
  -- goroutines together lie below 2^63.)
  pub open_channels_bounded :
      (w : W) (k : ℕ) (es : List (Event W))
      → size + k < 2 ^ 63
      → let s = after w k es in
        (length s.pool.idle + sum_by owns s.threads ≤ size) × (s.pool.tokens ≤ size)
  open_channels_bounded w k es r =
      let s = after w k es in
      let v = after-Inv w k es r in omega (arith, v.books, sum_by_mono owns held owns-le s.threads)

  -- In every interleaving, once each goroutine is between two calls or holds a leased channel, the
  -- `active` counter, which Stats reports as ChannelsActive, is exactly the number of idle channels
  -- plus the number of leased ones, and so is the number of buffered permits.
  pub active-eq-idle_leased :
      (w : W) (k : ℕ) (es : List (Event W))
      → size + k < 2 ^ 63
      → All IsResting (after w k es).threads
      → let s = after w k es in
        (s.pool.active ≡ length s.pool.idle + sum_by leases s.threads)
        × (s.pool.tokens ≡ s.pool.active)
  active-eq-idle_leased w k es r a =
      let s = after w k es in
      let v = after-Inv w k es r in
      omega (
        arith,
        v.books,
        sum_by-agree held leases IsResting resting-held s.threads a,
        sum_by-agree uncounted (λ x. 0) IsResting resting-uncounted s.threads a,
        sum_by-agree unlowered (λ x. 0) IsResting resting-unlowered s.threads a,
        sum_by-zero s.threads,
      )

  -- In every interleaving, once the pool has been closed and every call has returned and every leased
  -- channel has been given back, no channel is left in the idle buffer, no permit is taken and
  -- `active` is 0: shutting down leaks nothing.
  pub shutdown_leaks_nothing :
      (w : W) (k : ℕ) (es : List (Event W))
      → size + k < 2 ^ 63
      → All IsOutside (after w k es).threads
      → (after w k es).pool.closed ≡ true
      → let s = after w k es in (s.pool.idle ≡ []) × (s.pool.tokens ≡ 0) × (s.pool.active ≡ 0)
  shutdown_leaks_nothing w k es r a c =
      let s = after w k es in
      let v = after-Inv w k es r in
      ground (
        arith,
        v.books,
        v.books.drained c,
        sum_by-agree held (λ x. 0) IsOutside outside-held s.threads a,
        sum_by-agree uncounted (λ x. 0) IsOutside outside-uncounted s.threads a,
        sum_by-agree unlowered (λ x. 0) IsOutside outside-unlowered s.threads a,
        sum_by-agree drains (λ x. 0) IsOutside outside-drains s.threads a,
        sum_by-zero s.threads,
      )
