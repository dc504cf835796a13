-- ===== src/Tests/ChannelRuns.antt =====
-- Runs of a channel wrapper over a raw channel that counts what is done with it.
use eamqp.Base.{
  ℕ, suc, ◌+◌, ◌≤◌, ◌<◌, ◌≡◌, refl, true, false, none, List, [], ◌∷◌, sum_by, All, if◌then◌else◌,
}
use eamqp.Base.Int.{pos}
use eamqp.Tests.Tally.{tally}
use eamqp.Channel.{Channel, new_channel_with_release, perform, close}
use eamqp.Channel.Messages
use eamqp.Channel.Calls.{Call, qos, ack, invoke, invoke_all, any_changes}
use eamqp.Channel.Session.{close-invoke_all}
use eamqp.Channel.Lifecycle.{Event, enters, leaves, closes, resumes, run, start}
use eamqp.Channel.Accounts.{in_method, count_disposals, Fits}
use eamqp.Channel.Ownership.{given_up_once}

abbrev release : ℕ → ℕ
release s = s + 100

abbrev discard : ℕ → ℕ
discard s = s + 1000

abbrev calls : List Call
calls = ack 1 false ∷ qos (pos 10) (pos 0) false ∷ ack 2 false ∷ []

close-invoke_all_example :
    let (ch, s') = invoke_all tally calls (new_channel_with_release 5 none release discard) 0 in
    ((close tally ch s').0 ≡ none)
    × ((close tally ch s').2 ≡ (if any_changes calls then discard s' else release s'))
close-invoke_all_example = close-invoke_all tally 5 release discard none calls 0

-- The count is that of the three calls and of the discard.
discarded_total :
    let (ch, s') = invoke_all tally calls (new_channel_with_release 5 none release discard) 0 in
    (close tally ch s').2 ≡ 1003
unfolding invoke_all invoke new_channel_with_release close Messages.ack Messages.qos perform
discarded_total = refl

abbrev shut : Channel ℕ
shut = record {
  amqp_ch = none;
  client = none;
  release = none;
  discard = none;
  stateful = false;
  closing = true;
  inflight = 0;
}

-- One goroutine closes while the other is in a stateful method, and has to wait for it.
abbrev overlapping : List (Event ℕ)
overlapping = enters 0 true ∷ closes 1 ∷ resumes 1 ∷ leaves 0 (λ s. suc s) ∷ resumes 1 ∷ []

given_up_once_example :
    let s = run tally overlapping (start (new_channel_with_release 5 none release discard) 0 2) in
    (count_disposals s.disposals ≤ 1)
    × (0 < count_disposals s.disposals → sum_by in_method s.places ≡ 0)
    × All (Fits s.used) s.disposals
given_up_once_example = given_up_once release discard tally 5 2 none 0 overlapping
