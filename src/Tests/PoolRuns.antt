-- ===== src/Tests/PoolRuns.antt =====
-- Runs of a channel pool of size 1 with two goroutines.
use eamqp.Base.{
  ℕ, ◌≤◌, ◌+◌, ◌≡◌, refl, true, false, none, some, List, [], ◌∷◌, ◌++◌, arith, length, sum_by,
  replicate, All, get_elem?,
}
use eamqp.Pool.{ChannelPool, new_channel_pool, is_usable}
use eamqp.Pool.Steps.{head, leased, waiting, finished, Turn, step}
use eamqp.Pool.Machine.{System, Event, turn, acquires, closes, run, initial, happen}
use eamqp.Pool.Permits.{
  owns, leases, IsResting, IsOutside, open_channels_bounded, active-eq-idle_leased,
  shutdown_leaks_nothing,
}
use eamqp.Pool.Exclusive.{lease_exclusive, is_pointer, KeepsIssued}
use eamqp.Pool.Acquire.{acquire}
use eamqp.Pool.Alone.{alone, acquire-alone}
use eamqp.Pool.Wakeup.{IsStarved, starved_forever}
use eamqp.Tests.Lab.{World, quiet, lab, one_channel, lab-Fresh}

abbrev patient : Turn
patient = record { ctx = none; prefer_ctx = false; discards = false }

abbrev throwing : Turn
throwing = record { ctx = none; prefer_ctx = false; discards = true }

abbrev turns : ℕ → ℕ → List (Event World)
turns i n = replicate n (turn i patient)

-- The first goroutine takes the only channel and the second comes to wait.
abbrev contended : List (Event World)
contended = acquires 0 ∷ turns 0 7 ++ acquires 1 ∷ turns 1 4

-- The first gives it back, and the second gets it.
abbrev handed_over : List (Event World)
handed_over = contended ++ turns 0 1 ++ turns 1 2

-- The pool is closed, and the second gives its channel back.
abbrev shut_down : List (Event World)
shut_down = handed_over ++ closes 0 ∷ turns 0 2 ++ turns 1 5

-- The first discards the channel while the second waits.
abbrev thrown : List (Event World)
thrown = contended ++ turn 0 throwing ∷ turns 0 3

abbrev after_ : List (Event World) → System World
after_ es = run lab none es (initial 7 one_channel quiet 2)

contended_threads : (after_ contended).threads ≡ leased 0 ∷ waiting true ∷ []
unfolding run happen initial step new_channel_pool is_usable
contended_threads = refl

handed_over-IsResting : All IsResting (after_ handed_over).threads
unfolding run happen initial step new_channel_pool is_usable
handed_over-IsResting = (tt, (tt, tt))

handed_over-leased : get_elem? (after_ handed_over).threads 1 ≡ some (leased 0)
unfolding run happen initial step new_channel_pool is_usable
handed_over-leased = refl

handed_over-KeepsIssued : All (KeepsIssued lab-Fresh.issued) handed_over
handed_over-KeepsIssued = ground arith

shut_down-IsOutside : All IsOutside (after_ shut_down).threads
unfolding run happen initial step new_channel_pool is_usable
shut_down-IsOutside = (tt, (tt, tt))

shut_down-closed : (after_ shut_down).pool.closed ≡ true
unfolding run happen initial step new_channel_pool is_usable
shut_down-closed = refl

thrown-IsStarved : IsStarved (after_ thrown)
unfolding run happen initial step new_channel_pool is_usable
thrown-IsStarved = (refl, refl, (tt, (tt, tt)))

-- A permit is free, and still the second goroutine waits.
thrown_pool :
    ((after_ thrown).pool.tokens ≡ 0) × ((after_ thrown).threads ≡ finished ∷ waiting true ∷ [])
unfolding run happen initial step new_channel_pool is_usable
thrown_pool = (refl, refl)

open_channels_bounded_example :
    let s = after_ handed_over in
    (length s.pool.idle + sum_by owns s.threads ≤ 1) × (s.pool.tokens ≤ 1)
open_channels_bounded_example =
    open_channels_bounded lab none 7 one_channel quiet 2 handed_over (omega arith)

active-eq-idle_leased_example :
    let s = after_ handed_over in
    (s.pool.active ≡ length s.pool.idle + sum_by leases s.threads) × (s.pool.tokens ≡ s.pool.active)
active-eq-idle_leased_example =
    active-eq-idle_leased lab none 7 one_channel quiet 2 handed_over (omega arith)
      handed_over-IsResting

shutdown_leaks_nothing_example :
    let s = after_ shut_down in (s.pool.idle ≡ []) × (s.pool.tokens ≡ 0) × (s.pool.active ≡ 0)
shutdown_leaks_nothing_example =
    shutdown_leaks_nothing lab none 7 one_channel quiet 2 shut_down (omega arith)
      shut_down-IsOutside shut_down-closed

lease_exclusive_example :
    (◌≡◌ {A = ℕ} 1 1) × (sum_by (is_pointer 0) (after_ handed_over).pool.idle ≡ 0)
lease_exclusive_example =
    lease_exclusive lab none lab-Fresh 0 7 one_channel quiet 2 handed_over 1 1
      handed_over-KeepsIssued handed_over-leased handed_over-leased

starved_forever_example : run lab none (turns 1 3) (after_ thrown) ≡ after_ thrown
starved_forever_example =
    starved_forever lab none (turns 1 3) (after_ thrown) thrown-IsStarved (refl, (refl, (refl, tt)))

-- A pool that buffers a channel which the broker has closed, and then a usable one.
abbrev two_idle : ChannelPool
two_idle = record (new_channel_pool 7 one_channel) {
  idle = some 0 ∷ some 1 ∷ [];
  idle_cap = 2;
  limit = some 2;
  tokens = 2;
  active = 2;
}

abbrev one_dead : World
one_dead = record { next = 2; shut = 0 ∷ []; hung_up = [] }

two_idle_live : (two_idle.has_channels ≡ true) × (two_idle.idle_closed ≡ false)
unfolding new_channel_pool
two_idle_live = (refl, refl)

acquire-alone_example :
    alone lab none patient 22 head two_idle one_dead ≡ acquire lab none patient two_idle one_dead
unfolding new_channel_pool
acquire-alone_example = acquire-alone lab none patient two_idle one_dead 22 refl refl (omega arith)

two_idle_takes_second : (acquire lab none patient two_idle one_dead).0 ≡ leased 1
unfolding acquire new_channel_pool is_usable
two_idle_takes_second = refl
