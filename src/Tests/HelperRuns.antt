-- ===== src/Tests/HelperRuns.antt =====
-- Runs of SimplePublish and SimpleRPC with a channel of a pool.
use eamqp.Base.{ℕ, ◌+◌, ◌≡◌, refl, Bool, none, [], ◌∷◌, Option, Error, Result, ok}
use eamqp.Amqp.Values.{Delivery}
use eamqp.Channel.{Channel, new_channel_with_release}
use eamqp.Helpers.{Reply, timed_out, simple_rpc}
use eamqp.Helpers.Returned.{Calls, simple_rpc-discards}
use eamqp.Tests.Tally.{tally_beside}

abbrev Desk : Type 0
Desk = ℕ × (ℕ × ℕ)

abbrev count_release : Desk → Desk
count_release s = (s.0, (s.1.0 + 1, s.1.1))

abbrev count_discard : Desk → Desk
count_discard s = (s.0, (s.1.0, s.1.1 + 1))

abbrev take_channel : Desk → Result (Channel Desk) × Desk
take_channel s = (ok (new_channel_with_release 7 none count_release count_discard), s)

-- No reply comes.
abbrev wait_in_vain : ℕ → Desk → Reply × Desk
wait_in_vain d s = (timed_out, s)

abbrev ack_none : Delivery → Bool → Desk → Option Error × Desk
ack_none d many s = (none, s)

tally_beside-Calls : Calls {S = Desk} tally_beside wait_in_vain ack_none (λ s. s.1)
tally_beside-Calls = record {
  consumes = λ c queue tag auto_ack exclusive no_local no_wait args s. refl;
  publishes = λ c exchange key mandatory immediate msg s. refl;
  logs = λ entry s. refl;
  records = λ m s. refl;
  waits = λ d s. refl;
  acks = λ d many s. refl;
}

simple_rpc-discards_example :
    (simple_rpc tally_beside take_channel wait_in_vain ack_none "" "rpc" "answers"
      (1 ∷ [])
      (0, (3, 4))).1.1
    ≡ (3, 4 + 1)
simple_rpc-discards_example =
    simple_rpc-discards tally_beside wait_in_vain ack_none (λ s. s.1) tally_beside-Calls 7
      count_release count_discard take_channel none "" "rpc" "answers" (1 ∷ []) (0, (3, 4))
      (0, (3, 4)) (λ t. refl) refl
