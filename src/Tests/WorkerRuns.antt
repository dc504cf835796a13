-- ===== src/Tests/WorkerRuns.antt =====
-- A run of ConsumeWithWorkers: two workers, and three deliveries of which the second fails.
use eamqp.Base.{
  ℕ, ◌+◌, ◌≤◌, ◌≡◌, refl, Bool, true, false, none, some, List, [], ◌∷◌, ◌++◌, arith, ◌==◌,
  if◌then◌else◌, pool_closed, sum_by,
}
use eamqp.Base.Int.{pos}
use eamqp.Amqp.Values.{Delivery}
use eamqp.Channel.{new_channel}
use eamqp.Channel.Quiet.{Quiet}
use eamqp.Consumer.{Acknowledger, Handler, Consumer, consume}
use eamqp.Consumer.Settling.{Books, verdicts, is_error}
use eamqp.Consumer.Workers.{Event, arrives, ends, cancels, works, proceeds, consume_with_workers}
use eamqp.Consumer.Workers.Once.{settled_at_most_once, settled_exactly_once}
use eamqp.Tests.Tally.{tally_beside}

abbrev Desk : Type 0
Desk = ℕ × List (ℕ × Bool)

abbrev ledger : Acknowledger Desk
ledger = record {
  ack = λ d m s. (s.0, s.1 ++ (d.tag, true) ∷ []);
  nack = λ d m r s. (s.0, s.1 ++ (d.tag, false) ∷ []);
}

abbrev is_second : Delivery → Bool
is_second d = d.tag == 2

abbrev second_fails : Handler Desk
second_fails d s = (if is_second d then some pool_closed else none, s)

second_fails-is_error : (d : Delivery) (s : Desk) → is_error (second_fails d s).0 ≡ is_second d
second_fails-is_error d s = ground arith

second_fails-Books : Books ledger second_fails (λ s. s.1) is_second
second_fails-Books = record {
  acked = λ d s. refl;
  nacked = λ d s. refl;
  handles = λ d s. refl;
  fails_on = second_fails-is_error;
}

tally_beside-Quiet : Quiet {B = List (ℕ × Bool)} tally_beside (λ s. s.1)
tally_beside-Quiet = record {
  cancels = λ c tag no_wait s. refl;
  closes = λ c s. refl;
  logs = λ entry s. refl;
}

abbrev message : ℕ → Delivery
message n = record { tag = n; headers = none; correlation_id = ""; reply_to = ""; body = [] }

abbrev listener : Consumer Desk
listener = record {
  channel = new_channel 7 none;
  queue = "orders";
  opts = record {
    auto_ack = false;
    exclusive = false;
    no_local = false;
    no_wait = false;
    args = none;
  };
}

abbrev morning : List Event
morning =
    arrives (message 1)
    ∷ works 0
    ∷ arrives (message 2)
    ∷ arrives (message 3)
    ∷ works 1
    ∷ works 1
    ∷ works 0
    ∷ works 1
    ∷ works 1
    ∷ works 1
    ∷ works 1
    ∷ works 0
    ∷ []

-- A worker has a fourth delivery in hand while the channel is closed.
abbrev evening : List Event
evening =
    arrives (message 4)
    ∷ works 0
    ∷ cancels
    ∷ proceeds
    ∷ proceeds
    ∷ ends
    ∷ proceeds
    ∷ works 0
    ∷ works 0
    ∷ works 0
    ∷ works 1
    ∷ proceeds
    ∷ []

-- How often the second delivery has been given back.
abbrev given_back : ℕ × Bool → ℕ
given_back (tag, true) = 0
given_back (tag, false) = if tag == 2 then 1 else 0

settled_at_most_once_example :
    let t =
      consume_with_workers tally_beside ledger second_fails "tag"
        (pos 2)
        morning
        listener
        (0, []) in
    sum_by given_back t.world.1
    ≤ sum_by given_back (consume tally_beside "tag" listener (0, [])).2.1
      + sum_by given_back (verdicts is_second t.arrived)
unfolding new_channel consume eamqp.Channel.Messages.consume eamqp.Channel.perform
    eamqp.Channel.Messages.after_consume
settled_at_most_once_example =
    settled_at_most_once tally_beside ledger second_fails "tag" (λ s. s.1) is_second
      second_fails-Books tally_beside-Quiet given_back (pos 2) morning listener (0, []) 0 refl refl
      (tt, tt)

settled_exactly_once_example :
    let t =
      consume_with_workers tally_beside ledger second_fails "tag"
        (pos 2)
        (morning ++ evening)
        listener
        (0, []) in
    sum_by given_back t.world.1
    ≡ sum_by given_back (consume tally_beside "tag" listener (0, [])).2.1
      + sum_by given_back (verdicts is_second t.arrived)
unfolding new_channel consume consume_with_workers eamqp.Channel.Messages.consume
    eamqp.Channel.perform eamqp.Channel.Messages.after_consume eamqp.Channel.Messages.cancel
    eamqp.Channel.Topology.logged eamqp.Channel.close
settled_exactly_once_example =
    settled_exactly_once tally_beside ledger second_fails "tag" (λ s. s.1) is_second
      second_fails-Books tally_beside-Quiet given_back (pos 2) (morning ++ evening) listener (0, [])
      0 none refl refl (tt, tt) refl (λ e. ground arith)
