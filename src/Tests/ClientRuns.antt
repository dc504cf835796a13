-- ===== src/Tests/ClientRuns.antt =====
-- Runs of a client with a single connection.
use eamqp.Base.{
  ℕ, suc, ◌≡◌, refl, true, false, none, some, List, [], ◌∷◌, Result, ok, arith, length, ◌<◌, inl,
  inr,
}
use eamqp.Base.Int.{pos}
use eamqp.Amqp.Raw.{Metric}
use eamqp.Client.{Client, close, reconnect}
use eamqp.Client.Health.{health, Serves, health-Serves}
use eamqp.Client.Shut.{Refuses, PoolIsShut, close-Refuses}
use eamqp.Client.Kept.{IsRedialled, reconnect-IsRedialled}
use eamqp.Connections.Slots.{IsShut}
use eamqp.Tests.Lab.{World, quiet, lab, one_channel, lab-Closing, lab-ClosingChannels}

abbrev single : Client
single = record {
  config = record { pool_size = pos 1; channels = one_channel };
  conn = some 4;
  pool = none;
  closed = false;
}

abbrev unrecorded : Metric → World → World
unrecorded m w = w

abbrev dial_next : ℕ → World → Result ℕ × World
dial_next u w = (ok w.next, record w { next = suc w.next })

abbrev one_uri : Result (List ℕ)
one_uri = ok (9 ∷ [])

one_uri-length : (us : List ℕ) → one_uri ≡ ok us → 0 < length us
one_uri-length [] h = ground arith
one_uri-length (u ∷ us) h = omega arith

health-Serves_example :
    (health lab none single quiet ≡ true
      → (single.closed ≡ false) × Serves lab none quiet (some 4) none)
    × ((single.closed ≡ false) × Serves lab none quiet (some 4) none
        → health lab none single quiet ≡ true)
health-Serves_example = health-Serves lab none single quiet

close-Refuses_example :
    let (e, c', w') = close lab none unrecorded single quiet in
    Refuses lab none unrecorded dial_next dial_next c' w'
    × IsShut lab w' single.conn
    × PoolIsShut lab none unrecorded w' single.pool
close-Refuses_example =
    close-Refuses lab none unrecorded dial_next dial_next lab-Closing lab-ClosingChannels
      (λ m d w h. h) single quiet refl tt

reconnect-IsRedialled_example :
    IsRedialled lab 4 (reconnect lab none unrecorded dial_next dial_next one_uri single quiet)
reconnect-IsRedialled_example =
    reconnect-IsRedialled lab lab-Closing none unrecorded (λ m d w h. h) 4 dial_next dial_next
      (λ u w d h. inr h) (λ u w d h. inr h) lab-ClosingChannels one_uri single quiet one_uri-length
      refl tt (inr (inl refl))
