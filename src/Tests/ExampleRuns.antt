-- ===== src/Tests/ExampleRuns.antt =====
-- Runs of the example programs: a command line, and the deliveries of two consumers.
use eamqp.Base.{ℕ, ◌≡◌, refl, true, false, none, some, [], ◌∷◌, ok, get_elem?}
use eamqp.Text.{Text, codes, starts_with}
use eamqp.Amqp.Values.{Delivery}
use eamqp.Channel.{Channel, new_channel}
use eamqp.Channel.Beside.{beside}
use eamqp.Consumer.{Acknowledger}
use eamqp.Consumer.Settling.{deliver}
use eamqp.Consumer.Workers.{Work, ready, stopped, waiting, works, run}
use eamqp.Examples.Settings.{
  is_config_flag, has_config_value, args_without_config, config_path_from_args,
}
use eamqp.Examples.Settings.Arguments.{
  own, behind, joined, written, own_args, first_path, args_without_config-written,
}
use eamqp.Examples.Program.{Host}
use eamqp.Examples.DeadLetter.{run_consumer}
use eamqp.Examples.RetryListener.{retry_listener, with_own}
use eamqp.Examples.Judged.{
  Ledger, recorded, acked, IsJudged, retry_verdict, ledger_of, run_consumer-IsJudged, run-twice,
}
use eamqp.Tests.Tally.{tally}

args_without_config-written_example :
    let parts =
      own (codes "consumer") ∷ behind true (codes "--config") ∷ joined false (codes "b") ∷ [] in
    (args_without_config (codes "qos" ∷ written parts (some false)) ≡ own_args parts)
    × (config_path_from_args (codes "qos" ∷ written parts (some false)) ≡ first_path parts)
unfolding is_config_flag has_config_value starts_with
args_without_config-written_example =
    args_without_config-written (codes "qos")
      (own (codes "consumer") ∷ behind true (codes "--config") ∷ joined false (codes "b") ∷ [])
      (some false) (refl, refl) ((refl, refl), (tt, (tt, tt)))

abbrev acknowledge : Acknowledger ℕ
acknowledge = record { ack = λ d many s. s; nack = λ d many requeue s. s }

abbrev bench : Host (Ledger × ℕ)
bench = record {
  Handle = ℕ;
  open_client = λ key s. (ok 0, s);
  new_channel = λ client s. (ok (new_channel 7 none), s);
  acquire_channel = λ client s. (ok (new_channel 7 none), s);
  notify_close = λ client s. s;
  close_client = λ client s. s;
  sleep = λ d s. s;
  unix = λ s. s.1;
  unix_nano = λ s. s.1;
}

abbrev order : ℕ → Text → Delivery
order n body = record { tag = n; headers = none; correlation_id = ""; reply_to = ""; body = body }

run_consumer-IsJudged_example :
    IsJudged tally acknowledge (order 1 (codes "fine") ∷ order 2 (codes "die-now") ∷ []) [] (
      run_consumer
        (beside tally)
        (recorded acknowledge)
        bench
        (deliver (order 1 (codes "fine") ∷ order 2 (codes "die-now") ∷ []))
        (new_channel 7 none)
        ([], 0))
run_consumer-IsJudged_example =
    run_consumer-IsJudged tally acknowledge bench
      (order 1 (codes "fine") ∷ order 2 (codes "die-now") ∷ []) (new_channel 7 none) ([], 0)

-- A worker that waits, and one delivery.
abbrev desk : Work (Channel (Ledger × ℕ) × (Ledger × ℕ))
desk = record {
  queue = order 3 (codes "fail") ∷ [];
  ended = false;
  workers = stopped ∷ ready ∷ [];
  caller = waiting;
  done = false;
  consumer = record {
    channel = new_channel 8 none;
    queue = "retry.queue";
    opts = record {
      auto_ack = false;
      exclusive = false;
      no_local = false;
      no_wait = false;
      args = none;
    };
  };
  world = (new_channel 7 none, ([], 0));
  arrived = order 3 (codes "fail") ∷ [];
}

run-twice_example :
    let t' =
      run
        (beside (beside tally))
        (with_own (beside tally) (recorded acknowledge))
        (retry_listener (beside tally) (recorded acknowledge))
        "tag"
        (works 1 ∷ works 1 ∷ works 1 ∷ [])
        desk in
    (ledger_of t'.world ≡ (3, retry_verdict (order 3 (codes "fail"))) ∷ (3, acked) ∷ [])
    × (get_elem? t'.workers 1 ≡ some ready)
run-twice_example =
    run-twice tally acknowledge (beside (beside tally)) "tag" 1 (order 3 (codes "fail")) [] desk
      refl refl refl
