-- ===== src/Tests/NotifyRuns.antt =====
-- Runs of NotifyClose: a pool of which two of three connections are there, and a client.
use eamqp.Base.{◌≡◌, refl, true, false, none, some, List, [], ◌∷◌, ◌++◌, map}
use eamqp.Base.Int.{pos}
use eamqp.Errors.{AmqpError}
use eamqp.Notify.{Event, emits, ends, forwards, joins, takes, finished, notify_pool, run}
use eamqp.Notify.Order.{from}
use eamqp.Notify.Forwarded.{pool_complete}

abbrev lost : AmqpError
lost = record { code = pos 320; reason = "CONNECTION_FORCED"; server = true; recover = false }

-- Connection 0 closes with an error before its goroutine has registered, and connection 2 after.
abbrev first_steps : List (Event AmqpError)
first_steps =
    emits 0 lost
    ∷ forwards 0
    ∷ forwards 2
    ∷ emits 2 lost
    ∷ forwards 2
    ∷ ends 2
    ∷ ends 0
    ∷ forwards 0
    ∷ forwards 2
    ∷ takes
    ∷ []

abbrev all_steps : List (Event AmqpError)
all_steps = first_steps ++ forwards 2 ∷ joins ∷ []

pool_complete_example :
    (true ≡ true)
    × (from 2 (run (λ e. e) all_steps (notify_pool (some 4 ∷ none ∷ some 6 ∷ []))).received
        ≡ map (λ e. e) (lost ∷ []))
unfolding run notify_pool
pool_complete_example =
    pool_complete (λ e. e) (some 4 ∷ none ∷ some 6 ∷ []) all_steps 2
      (record { pending = []; ended = true; place = finished; emitted = lost ∷ []; missed = [] })
      refl refl refl

abbrev client_steps : List (Event AmqpError)
client_steps = emits 0 lost ∷ forwards 0 ∷ ends 0 ∷ forwards 0 ∷ forwards 0 ∷ takes ∷ joins ∷ []
