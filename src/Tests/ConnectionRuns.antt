-- ===== src/Tests/ConnectionRuns.antt =====
-- Runs of a connection pool of two and of three slots.
use eamqp.Base.{
  ℕ, suc, ◌≡◌, ◌≢◌, ◌^◌, ◌-◌, refl, true, false, none, some, [], ◌∷◌, Result, ok, err, panics,
  arith, inr, All, ◌==◌, if◌then◌else◌,
}
use eamqp.Base.{pool_closed}
use eamqp.Base.Int.{pos}
use eamqp.Pool.{new_channel_pool}
use eamqp.Pool.Steps.{Turn}
use eamqp.Connections.{ConnectionPool, new_connection_pool, acquire_from_pool}
use eamqp.Connections.Dial.{dial_all}
use eamqp.Connections.Leaks.{IsKept, dial_all-IsKept}
use eamqp.Connections.RoundRobin.{ChoosesSlot, round_robin, acquire_from_pool-panics}
use eamqp.Connections.Slots.{IsShut}
use eamqp.Connections.Shutdown.{close, AreEmptied, close_shuts}
use eamqp.Tests.Lab.{World, quiet, lab, one_channel, lab-Closing, lab-ClosingChannels}

abbrev patient : Turn
patient = record { ctx = none; prefer_ctx = false; discards = false }

abbrev three : ConnectionPool
three = record {
  connections = some 4 ∷ none ∷ some 6 ∷ [];
  channel_pools =
      some (new_channel_pool 4 one_channel) ∷ none ∷ some (new_channel_pool 6 one_channel) ∷ [];
  closed = false;
  current = 0;
  total = 2;
  errors = 0;
  reconnects = 0;
}

-- After 2^31 - 1 calls.
abbrev worn : ConnectionPool
worn = record three { current = 2 ^ 31 - 1 }

-- The dial number 1 fails.
abbrev dial_second_fails : ℕ → World → Result ℕ × World
dial_second_fails u w =
    if u == 1 then (err pool_closed, w) else (ok w.next, record w { next = suc w.next })

round_robin_example :
    (i : ℕ) × (j : ℕ) × (i ≢ j)
    × ChoosesSlot lab none (λ k. patient) 3 three quiet i
    × ChoosesSlot lab none (λ k. patient) 5 three quiet j
round_robin_example =
    round_robin lab none (λ k. patient) three quiet 3 5 refl (omega arith) (omega arith)
      (omega arith) (omega arith) (omega arith)

acquire_from_pool-panics_example : (acquire_from_pool lab none patient worn quiet).0 ≡ panics
acquire_from_pool-panics_example =
    acquire_from_pool-panics lab none patient worn quiet refl (omega arith) (omega arith)
      (omega arith) (omega arith) (omega arith)

abbrev dial_next : ℕ → World → Result ℕ × World
dial_next u w = (ok w.next, record w { next = suc w.next })

dial_all-IsKept_example : IsKept lab 1 (
    dial_all lab dial_next one_channel
      (0 ∷ 1 ∷ [])
      (new_connection_pool (pos 2) 2)
      (record quiet { hung_up = 1 ∷ [] }))
dial_all-IsKept_example =
    dial_all-IsKept lab lab-Closing dial_next one_channel (λ u w d h. inr h) 1 (0 ∷ 1 ∷ []) (pos 2)
      (record quiet { hung_up = 1 ∷ [] }) (omega arith) refl

close_shuts_example :
    let (e, q, w') = close lab three quiet in
    (q.closed ≡ true)
    × All (IsShut lab w') three.connections
    × AreEmptied lab w' three.channel_pools q.channel_pools
    × (close lab q w' ≡ (none, q, w'))
unfolding new_channel_pool
close_shuts_example =
    close_shuts lab lab-Closing lab-ClosingChannels three quiet refl
      ((refl, λ h. ground arith), (tt, ((refl, λ h. ground arith), tt)))
