-- ===== src/Tests/Tally.antt =====
-- A raw channel for the tests, which counts what is done with it.
use eamqp.Base.{ℕ, suc, false, none, ok, err, channel_closed}
use eamqp.Base.Int.{pos}
use eamqp.Amqp.Raw.{Raw}

abbrev pub tally : Raw ℕ
tally = record {
  close = λ x0 s. (none, suc s);
  is_closed = λ x0 s. false;
  exchange_declare = λ x0 x1 x2 x3 x4 x5 x6 x7 s. (none, suc s);
  exchange_declare_passive = λ x0 x1 x2 x3 x4 x5 x6 x7 s. (none, suc s);
  exchange_delete = λ x0 x1 x2 x3 s. (none, suc s);
  exchange_bind = λ x0 x1 x2 x3 x4 x5 s. (none, suc s);
  exchange_unbind = λ x0 x1 x2 x3 x4 x5 s. (none, suc s);
  queue_declare = λ x0 x1 x2 x3 x4 x5 x6 s. (err channel_closed, suc s);
  queue_declare_passive = λ x0 x1 x2 x3 x4 x5 x6 s. (err channel_closed, suc s);
  queue_inspect = λ x0 x1 s. (err channel_closed, suc s);
  queue_bind = λ x0 x1 x2 x3 x4 x5 s. (none, suc s);
  queue_unbind = λ x0 x1 x2 x3 x4 s. (none, suc s);
  queue_purge = λ x0 x1 x2 s. (ok (pos 0), suc s);
  queue_delete = λ x0 x1 x2 x3 x4 s. (ok (pos 0), suc s);
  publish = λ x0 x1 x2 x3 x4 x5 s. (none, suc s);
  publish_with_context = λ x0 x1 x2 x3 x4 x5 x6 s. (none, suc s);
  publish_with_deferred_confirm = λ x0 x1 x2 x3 x4 x5 x6 s. (ok none, suc s);
  consume = λ x0 x1 x2 x3 x4 x5 x6 x7 s. (ok s, suc s);
  consume_with_context = λ x0 x1 x2 x3 x4 x5 x6 x7 x8 s. (ok s, suc s);
  cancel = λ x0 x1 x2 s. (none, suc s);
  get = λ x0 x1 x2 s. (ok none, suc s);
  qos = λ x0 x1 x2 x3 s. (none, suc s);
  flow = λ x0 x1 s. (none, suc s);
  tx = λ x0 s. (none, suc s);
  tx_commit = λ x0 s. (none, suc s);
  tx_rollback = λ x0 s. (none, suc s);
  confirm = λ x0 x1 s. (none, suc s);
  get_next_publish_seq_no = λ x0 s. (s, suc s);
  ack = λ x0 x1 x2 s. (none, suc s);
  nack = λ x0 x1 x2 x3 s. (none, suc s);
  reject = λ x0 x1 x2 s. (none, suc s);
  recover = λ x0 x1 s. (none, suc s);
  notify_close = λ x0 s. (s, suc s);
  notify_flow = λ x0 s. (s, suc s);
  notify_return = λ x0 s. (s, suc s);
  notify_cancel = λ x0 s. (s, suc s);
  notify_publish = λ x0 s. (s, suc s);
  notify_confirm = λ x0 x1 x2 s. suc s;
  closed_go_channel = λ s. (s, suc s);
  close_go_channel = λ x0 s. suc s;
  log = λ x0 s. suc s;
  record_metric = λ x0 s. suc s;
  now = λ s. s;
  tracer_registered = λ s. false;
  start_trace = λ x0 x1 s. (x0, none, s);
  end_trace = λ x0 s. suc s;
}

-- The same count, beside something that the channel leaves alone.
abbrev pub tally_beside : {B : Type 0} → Raw (ℕ × B)
tally_beside = record {
  close = λ x0 s. (none, (suc s.0, s.1));
  is_closed = λ x0 s. false;
  exchange_declare = λ x0 x1 x2 x3 x4 x5 x6 x7 s. (none, (suc s.0, s.1));
  exchange_declare_passive = λ x0 x1 x2 x3 x4 x5 x6 x7 s. (none, (suc s.0, s.1));
  exchange_delete = λ x0 x1 x2 x3 s. (none, (suc s.0, s.1));
  exchange_bind = λ x0 x1 x2 x3 x4 x5 s. (none, (suc s.0, s.1));
  exchange_unbind = λ x0 x1 x2 x3 x4 x5 s. (none, (suc s.0, s.1));
  queue_declare = λ x0 x1 x2 x3 x4 x5 x6 s. (err channel_closed, (suc s.0, s.1));
  queue_declare_passive = λ x0 x1 x2 x3 x4 x5 x6 s. (err channel_closed, (suc s.0, s.1));
  queue_inspect = λ x0 x1 s. (err channel_closed, (suc s.0, s.1));
  queue_bind = λ x0 x1 x2 x3 x4 x5 s. (none, (suc s.0, s.1));
  queue_unbind = λ x0 x1 x2 x3 x4 s. (none, (suc s.0, s.1));
  queue_purge = λ x0 x1 x2 s. (ok (pos 0), (suc s.0, s.1));
  queue_delete = λ x0 x1 x2 x3 x4 s. (ok (pos 0), (suc s.0, s.1));
  publish = λ x0 x1 x2 x3 x4 x5 s. (none, (suc s.0, s.1));
  publish_with_context = λ x0 x1 x2 x3 x4 x5 x6 s. (none, (suc s.0, s.1));
  publish_with_deferred_confirm = λ x0 x1 x2 x3 x4 x5 x6 s. (ok none, (suc s.0, s.1));
  consume = λ x0 x1 x2 x3 x4 x5 x6 x7 s. (ok s.0, (suc s.0, s.1));
  consume_with_context = λ x0 x1 x2 x3 x4 x5 x6 x7 x8 s. (ok s.0, (suc s.0, s.1));
  cancel = λ x0 x1 x2 s. (none, (suc s.0, s.1));
  get = λ x0 x1 x2 s. (ok none, (suc s.0, s.1));
  qos = λ x0 x1 x2 x3 s. (none, (suc s.0, s.1));
  flow = λ x0 x1 s. (none, (suc s.0, s.1));
  tx = λ x0 s. (none, (suc s.0, s.1));
  tx_commit = λ x0 s. (none, (suc s.0, s.1));
  tx_rollback = λ x0 s. (none, (suc s.0, s.1));
  confirm = λ x0 x1 s. (none, (suc s.0, s.1));
  get_next_publish_seq_no = λ x0 s. (s.0, (suc s.0, s.1));
  ack = λ x0 x1 x2 s. (none, (suc s.0, s.1));
  nack = λ x0 x1 x2 x3 s. (none, (suc s.0, s.1));
  reject = λ x0 x1 x2 s. (none, (suc s.0, s.1));
  recover = λ x0 x1 s. (none, (suc s.0, s.1));
  notify_close = λ x0 s. (s.0, (suc s.0, s.1));
  notify_flow = λ x0 s. (s.0, (suc s.0, s.1));
  notify_return = λ x0 s. (s.0, (suc s.0, s.1));
  notify_cancel = λ x0 s. (s.0, (suc s.0, s.1));
  notify_publish = λ x0 s. (s.0, (suc s.0, s.1));
  notify_confirm = λ x0 x1 x2 s. (suc s.0, s.1);
  closed_go_channel = λ s. (s.0, (suc s.0, s.1));
  close_go_channel = λ x0 s. (suc s.0, s.1);
  log = λ x0 s. (suc s.0, s.1);
  record_metric = λ x0 s. (suc s.0, s.1);
  now = λ s. s.0;
  tracer_registered = λ s. false;
  start_trace = λ x0 x1 s. (x0, none, s);
  end_trace = λ x0 s. (suc s.0, s.1);
}
