-- ===== src/Channel/Beside.antt =====
-- channel.go: the raw channel's methods where the outside state has something beside it that they do
-- not reach, such as the pools of the client.
pub mod Untouched
use eamqp.Amqp.Raw.{Raw}

abbrev pub beside : {P W : Type 0} → Raw W → Raw (P × W)
beside raw = record {
  close = λ x0 s. let (r, w) = raw.close x0 s.1 in (r, (s.0, w));
  is_closed = λ x0 s. raw.is_closed x0 s.1;
  exchange_declare = λ x0 x1 x2 x3 x4 x5 x6 x7 s.
      let (r, w) = raw.exchange_declare x0 x1 x2 x3 x4 x5 x6 x7 s.1 in (r, (s.0, w));
  exchange_declare_passive = λ x0 x1 x2 x3 x4 x5 x6 x7 s.
      let (r, w) = raw.exchange_declare_passive x0 x1 x2 x3 x4 x5 x6 x7 s.1 in (r, (s.0, w));
  exchange_delete =
      λ x0 x1 x2 x3 s. let (r, w) = raw.exchange_delete x0 x1 x2 x3 s.1 in (r, (s.0, w));
  exchange_bind =
      λ x0 x1 x2 x3 x4 x5 s. let (r, w) = raw.exchange_bind x0 x1 x2 x3 x4 x5 s.1 in (r, (s.0, w));
  exchange_unbind = λ x0 x1 x2 x3 x4 x5 s.
      let (r, w) = raw.exchange_unbind x0 x1 x2 x3 x4 x5 s.1 in (r, (s.0, w));
  queue_declare = λ x0 x1 x2 x3 x4 x5 x6 s.
      let (r, w) = raw.queue_declare x0 x1 x2 x3 x4 x5 x6 s.1 in (r, (s.0, w));
  queue_declare_passive = λ x0 x1 x2 x3 x4 x5 x6 s.
      let (r, w) = raw.queue_declare_passive x0 x1 x2 x3 x4 x5 x6 s.1 in (r, (s.0, w));
  queue_inspect = λ x0 x1 s. let (r, w) = raw.queue_inspect x0 x1 s.1 in (r, (s.0, w));
  queue_bind =
      λ x0 x1 x2 x3 x4 x5 s. let (r, w) = raw.queue_bind x0 x1 x2 x3 x4 x5 s.1 in (r, (s.0, w));
  queue_unbind =
      λ x0 x1 x2 x3 x4 s. let (r, w) = raw.queue_unbind x0 x1 x2 x3 x4 s.1 in (r, (s.0, w));
  queue_purge = λ x0 x1 x2 s. let (r, w) = raw.queue_purge x0 x1 x2 s.1 in (r, (s.0, w));
  queue_delete =
      λ x0 x1 x2 x3 x4 s. let (r, w) = raw.queue_delete x0 x1 x2 x3 x4 s.1 in (r, (s.0, w));
  publish = λ x0 x1 x2 x3 x4 x5 s. let (r, w) = raw.publish x0 x1 x2 x3 x4 x5 s.1 in (r, (s.0, w));
  publish_with_context = λ x0 x1 x2 x3 x4 x5 x6 s.
      let (r, w) = raw.publish_with_context x0 x1 x2 x3 x4 x5 x6 s.1 in (r, (s.0, w));
  publish_with_deferred_confirm = λ x0 x1 x2 x3 x4 x5 x6 s.
      let (r, w) = raw.publish_with_deferred_confirm x0 x1 x2 x3 x4 x5 x6 s.1 in (r, (s.0, w));
  consume = λ x0 x1 x2 x3 x4 x5 x6 x7 s.
      let (r, w) = raw.consume x0 x1 x2 x3 x4 x5 x6 x7 s.1 in (r, (s.0, w));
  consume_with_context = λ x0 x1 x2 x3 x4 x5 x6 x7 x8 s.
      let (r, w) = raw.consume_with_context x0 x1 x2 x3 x4 x5 x6 x7 x8 s.1 in (r, (s.0, w));
  cancel = λ x0 x1 x2 s. let (r, w) = raw.cancel x0 x1 x2 s.1 in (r, (s.0, w));
  get = λ x0 x1 x2 s. let (r, w) = raw.get x0 x1 x2 s.1 in (r, (s.0, w));
  qos = λ x0 x1 x2 x3 s. let (r, w) = raw.qos x0 x1 x2 x3 s.1 in (r, (s.0, w));
  flow = λ x0 x1 s. let (r, w) = raw.flow x0 x1 s.1 in (r, (s.0, w));
  tx = λ x0 s. let (r, w) = raw.tx x0 s.1 in (r, (s.0, w));
  tx_commit = λ x0 s. let (r, w) = raw.tx_commit x0 s.1 in (r, (s.0, w));
  tx_rollback = λ x0 s. let (r, w) = raw.tx_rollback x0 s.1 in (r, (s.0, w));
  confirm = λ x0 x1 s. let (r, w) = raw.confirm x0 x1 s.1 in (r, (s.0, w));
  get_next_publish_seq_no =
      λ x0 s. let (r, w) = raw.get_next_publish_seq_no x0 s.1 in (r, (s.0, w));
  ack = λ x0 x1 x2 s. let (r, w) = raw.ack x0 x1 x2 s.1 in (r, (s.0, w));
  nack = λ x0 x1 x2 x3 s. let (r, w) = raw.nack x0 x1 x2 x3 s.1 in (r, (s.0, w));
  reject = λ x0 x1 x2 s. let (r, w) = raw.reject x0 x1 x2 s.1 in (r, (s.0, w));
  recover = λ x0 x1 s. let (r, w) = raw.recover x0 x1 s.1 in (r, (s.0, w));
  notify_close = λ x0 s. let (r, w) = raw.notify_close x0 s.1 in (r, (s.0, w));
  notify_flow = λ x0 s. let (r, w) = raw.notify_flow x0 s.1 in (r, (s.0, w));
  notify_return = λ x0 s. let (r, w) = raw.notify_return x0 s.1 in (r, (s.0, w));
  notify_cancel = λ x0 s. let (r, w) = raw.notify_cancel x0 s.1 in (r, (s.0, w));
  notify_publish = λ x0 s. let (r, w) = raw.notify_publish x0 s.1 in (r, (s.0, w));
  notify_confirm = λ x0 x1 x2 s. (s.0, raw.notify_confirm x0 x1 x2 s.1);
  closed_go_channel = λ s. let (r, w) = raw.closed_go_channel s.1 in (r, (s.0, w));
  close_go_channel = λ x0 s. (s.0, raw.close_go_channel x0 s.1);
  log = λ x0 s. (s.0, raw.log x0 s.1);
  record_metric = λ x0 s. (s.0, raw.record_metric x0 s.1);
  now = λ s. raw.now s.1;
  tracer_registered = λ s. raw.tracer_registered s.1;
  start_trace = λ x0 x1 s. let (c, h, w) = raw.start_trace x0 x1 s.1 in (c, h, (s.0, w));
  end_trace = λ x0 s. (s.0, raw.end_trace x0 s.1);
}
