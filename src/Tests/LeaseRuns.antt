-- ===== src/Tests/LeaseRuns.antt =====
-- A run of a client in pool mode, from NewChannel to the wrapper's Close.
use eamqp.Base.{ℕ, suc, zero, ◌≡◌, refl, true, false, none, some, [], ◌∷◌, arith, ok}
use eamqp.Base.Int.{pos}
use eamqp.Amqp.{Amqp}
use eamqp.Amqp.Raw.{Metric}
use eamqp.Pool.{ChannelPool}
use eamqp.Pool.Steps.{Turn}
use eamqp.Pool.Lease.{Stocked}
use eamqp.Connections.{ConnectionPool}
use eamqp.Channel.{ClientView}
use eamqp.Channel.Calls.{qos, tx_commit}
use eamqp.Client.{Client, new_channel}
use eamqp.Client.Lent.{IsStocked}
use eamqp.Client.Lent.Ended.{IsRestored, new_channel-IsRestored}
use eamqp.Tests.Lab.{one_channel}
use eamqp.Tests.Tally.{tally}

-- A broker that numbers what it opens, and where nothing dies.
abbrev steady : Amqp ℕ
steady = record {
  open_channel = λ conn w. (ok w, suc w);
  channel_is_closed = λ c w. false;
  close_channel = λ c w. (none, w);
  connection_is_closed = λ c w. false;
  close_connection = λ c w. (none, w);
}

-- Two channels at most: one is leased, one is idle.
abbrev one_out : ChannelPool
one_out = record {
  conn = 4;
  idle = some 9 ∷ [];
  idle_cap = 2;
  has_channels = true;
  idle_closed = false;
  limit = some 2;
  tokens = 2;
  closed = false;
  acquired = 2;
  returned = 1;
  created = 2;
  active = 2;
}

abbrev one_slot : ConnectionPool
one_slot = record {
  connections = some 4 ∷ [];
  channel_pools = some one_out ∷ [];
  closed = false;
  current = 0;
  total = 1;
  errors = 0;
  reconnects = 0;
}

abbrev with_pool : Client
with_pool = record {
  config = record { pool_size = pos 1; channels = one_channel };
  conn = none;
  pool = some one_slot;
  closed = false;
}

abbrev one_each : ℕ → ℕ
one_each i = 1

one_out-Stocked : Stocked 2 1 one_out
one_out-Stocked = record { limited = refl; permits = refl; tallied = refl; bounded = omega arith }

one_slot-IsStocked : IsStocked 2 one_each one_slot.channel_pools
one_slot-IsStocked zero cp h = rw (← first h) one_out-Stocked
  where
    first : {p q : ChannelPool} → some (some p) ≡ some (some q) → p ≡ q
    first h = cc
one_slot-IsStocked (suc i) cp h = absurd (ground arith)

abbrev at_ease : Turn
at_ease = record { ctx = none; prefer_ctx = false; discards = false }

abbrev seen : ClientView
seen = record { has_logger = true; has_metrics = true; trace_enabled = true }

abbrev counted_out : Metric → ℕ → ℕ
counted_out m w = w

-- The holder sets a prefetch limit, so that the channel is discarded.
new_channel-IsRestored_example :
    IsRestored 2 one_each steady counted_out
      (omega arith)
      none
      at_ease
      tally
      seen
      (qos (pos 1) (pos 0) false ∷ tx_commit ∷ [])
      (new_channel steady none counted_out at_ease with_pool 5)
new_channel-IsRestored_example =
    new_channel-IsRestored 2 one_each steady counted_out (omega arith) none at_ease tally seen
      (qos (pos 1) (pos 0) false ∷ tx_commit ∷ []) with_pool one_slot 5 refl refl one_slot-IsStocked
