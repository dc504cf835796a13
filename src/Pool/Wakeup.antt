-- ===== src/Pool/Wakeup.antt =====
-- pool.go, ChannelPool: who is woken when a channel is discarded. Acquire's second select waits for
-- an idle channel or for the context, and for no permit.
use eamqp.Base.{
  ℕ, zero, suc, ◌≡◌, refl, false, Option, none, some, List, [], ◌∷◌, arith, get_elem?, set, All,
}
use eamqp.Amqp.{Amqp, ChannelOptions}
use eamqp.Pool.{ChannelPool}
use eamqp.Pool.Steps.{Pc, waiting, failed, finished, Turn, step}
use eamqp.Pool.Machine.{System, Event, turn, run, happen, advance}

-- It waits in the second select, or has returned for good.
abbrev pub IsParked : Pc → Type 0
IsParked (waiting live) = Unit {0}
IsParked (failed e) = Unit {0}
IsParked finished = Unit {0}
IsParked _ = ⊥

-- A goroutine runs, and its context is not done.
abbrev pub IsPatient : {W : Type 0} → Event W → Type 0
IsPatient (turn i t) = t.ctx ≡ none
IsPatient _ = ⊥

-- Nothing is idle, and nobody is going to give a channel back.
abbrev pub IsStarved : {W : Type 0} → System W → Type 0
IsStarved s = (s.pool.idle ≡ []) × (s.pool.idle_closed ≡ false) × All IsParked s.threads

set_self : (ts : List Pc) (i : ℕ) (pc : Pc) → get_elem? ts i ≡ some pc → set ts i pc ≡ ts
set_self [] i pc e = refl
set_self (x ∷ xs) zero pc e = ground arith
set_self (x ∷ xs) (suc i) pc e = ground (arith, set_self xs i pc e)

All-get_elem? :
    (ts : List Pc) (i : ℕ) (pc : Pc) → get_elem? ts i ≡ some pc → All IsParked ts → IsParked pc
All-get_elem? [] i pc e a = ground arith
All-get_elem? (x ∷ xs) zero pc e a = ground arith
All-get_elem? (x ∷ xs) (suc i) pc e a = All-get_elem? xs i pc e a.1

module _ {W : Type 0} (amqp : Amqp W) (opts : ChannelOptions W) where
  parked-step :
      (t : Turn) (pc : Pc) (p : ChannelPool) (w : W)
      → IsParked pc
      → t.ctx ≡ none
      → p.idle ≡ []
      → p.idle_closed ≡ false
      → step amqp opts t pc p w ≡ (pc, p, w)
  unfolding step
  parked-step t (waiting live) p w k c i o = ground arith
  parked-step t pc p w k c i o = ground arith

  advance-IsStarved :
      (t : Turn) (i : ℕ) (o : Option Pc) (s : System W)
      → get_elem? s.threads i ≡ o
      → t.ctx ≡ none
      → IsStarved s
      → advance amqp opts t i o s ≡ s
  unfolding advance
  advance-IsStarved t i none s e c h = refl
  advance-IsStarved t i (some pc) s e c h =
      let same = parked-step t pc s.pool s.world (All-get_elem? s.threads i pc e h.2) c h.0 h.1 in
      ground (arith, same, set_self s.threads i pc e)

  -- Where no channel is idle and every goroutine waits in Acquire's second select or has returned, no
  -- turns of theirs change anything as long as no context is done, however many permits are free: a
  -- permit that `discard` has given back wakes none of the waiting calls.
  pub starved_forever :
      (es : List (Event W)) (s : System W) → IsStarved s → All IsPatient es → run amqp opts es s ≡ s
  unfolding run happen
  starved_forever [] s h a = refl
  starved_forever (turn i t ∷ es) s h a =
      rw (advance-IsStarved t i (get_elem? s.threads i) s refl a.0 h) (starved_forever es s h a.1)
  starved_forever (e ∷ es) s h a = absurd a.0
