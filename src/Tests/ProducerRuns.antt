-- ===== src/Tests/ProducerRuns.antt =====
-- Runs of a producer and of a batch producer.
use eamqp.Base.{ℕ, suc, ◌≡◌, refl, true, false, none, some, [], ◌∷◌}
use eamqp.Base.Int.{pos}
use eamqp.Amqp.Values.{Publishing}
use eamqp.Channel.{Channel, perform, log_entry, record_metric}
use eamqp.Channel.Publish
use eamqp.Producer.{Producer, Wait, confirmed, publish, publish_with_options}
use eamqp.Producer.Confirms.{IsAcked, publish_with_options-IsAcked}
use eamqp.Producer.Batch.{BatchProducer, flush}
use eamqp.Producer.Flush.{Flushed, flush-Flushed}
use eamqp.Examples.Batches.{publish_in_batches}
use eamqp.Examples.Batches.Complete.{emptied, publish_in_batches-Published}
use eamqp.Tests.Tally.{tally}

abbrev ack_all : Wait ℕ
ack_all ctx c timeout s = (confirmed true c, suc s)

abbrev hello : Publishing
hello = record {
  headers = none;
  content_type = "text/plain";
  delivery_mode = 1;
  correlation_id = "";
  reply_to = "";
  timestamp = 0;
  body = 104 ∷ 105 ∷ [];
}

abbrev plain : Channel ℕ
plain = record {
  amqp_ch = some 5;
  client = none;
  release = none;
  discard = none;
  stateful = false;
  closing = false;
  inflight = 0;
}

abbrev careful : Producer ℕ
careful = record { channel = some plain; enabled = true; timeout = pos 1000 }

abbrev two_messages : BatchProducer ℕ
two_messages = record {
  producer = record { channel = some plain; enabled = false; timeout = pos 1000 };
  batch = hello ∷ hello ∷ [];
  exchange = "logs";
  routing_key = "";
  max_size = pos 2;
}

publish_with_options-IsAcked_example :
    let r = Publish.publish_with_deferred_confirm tally "logs" "" false false hello plain 0 in
    let e = (publish_with_options tally ack_all "logs" "" false false hello careful 0).0 in
    (e ≡ none → IsAcked tally ack_all (pos 1000) r)
    × (IsAcked tally ack_all (pos 1000) r → e ≡ none)
publish_with_options-IsAcked_example =
    publish_with_options-IsAcked tally ack_all "logs" "" false false hello plain careful 0 refl refl

flush-Flushed_example :
    let (e, bp', s') = flush tally ack_all two_messages 0 in
    Flushed tally ack_all "logs" "" two_messages.batch
      (two_messages.producer, 0)
      (e, bp'.producer, s')
    × (bp'.batch ≡ [])
flush-Flushed_example = flush-Flushed tally ack_all two_messages 0

-- A batch of two that is flushed on the way, and one message at the end.
abbrev no_messages : BatchProducer ℕ
no_messages = record two_messages { batch = [] }

publish_in_batches-Published_example :
    publish_in_batches tally ack_all (hello ∷ hello ∷ hello ∷ []) no_messages 0
    ≡ (none, emptied tally ack_all no_messages no_messages.producer, 3)
unfolding publish Publish.publish perform Publish.after_publish log_entry record_metric
publish_in_batches-Published_example =
    publish_in_batches-Published tally ack_all (hello ∷ hello ∷ hello ∷ []) no_messages 0
      (no_messages.producer, 3) refl (refl, (refl, (refl, refl)))
