-- ===== src/Examples/Rpc.antt =====
-- examples/rpc/main.go: a server that answers requests, and a call. The five calls run concurrently in
-- the program, each on a channel of its own.
use eamqp.Base.{
  ℕ, suc, String, same, Bool, true, false, Option, none, some, List, ◌++◌, Error, Result, ok, err,
  if◌then◌else◌,
}
use eamqp.Text.{Text, codes}
use eamqp.Amqp.Values.{Publishing, Delivery}
use eamqp.Amqp.Raw.{Raw}
use eamqp.Channel.{Channel, close}
use eamqp.Channel.Topology
use eamqp.Channel.Publish
use eamqp.Channel.Messages
use eamqp.Consumer.{Acknowledger, Arrival}
use eamqp.Helpers.{Reply, replied, reply_closed, timed_out}
use eamqp.Observability.{digits}
use eamqp.Examples.Program.{
  Run, Host, ◌>>=◌, ◌>>◌, must, outside, json, try_publish, for_each, declare_direct,
}

-- `encode` is json.Marshal of the response to a request at a time, and `name` is fmt.Sprintf("corr-%d", …)
-- as a string.
module _ {S : Type 0} (raw : Raw S) (acks : Acknowledger S) (host : Host S)
    (encode : Text → ℕ → Result (List ℕ)) (name : ℕ → String) where
  unfoldable pub response_to : Delivery → List ℕ → Publishing
  response_to d body = record (json body) { correlation_id = d.correlation_id }

  -- What follows the publish of the response.
  unfoldable pub settle_request : Delivery → Option Error → S → S
  settle_request d (some e) s = acks.nack d false true s
  settle_request d none s = acks.ack d false s

  unfoldable pub respond : Delivery → Result (List ℕ) → Run S (Unit {0})
  unfolding response_to settle_request
  respond d (err e) = outside (acks.nack d false true)
  respond d (ok body) = do
    e ←
        try_publish raw "rpc.exchange" (if same d.reply_to "" then "default.reply" else d.reply_to)
          (response_to d body)
    outside (settle_request d e)

  unfoldable pub serve_one : Delivery → Run S (Unit {0})
  unfolding respond
  serve_one d ch s = respond d (encode d.body (host.unix s)) ch s

  -- for delivery := range deliveries
  unfoldable pub serve : List Arrival → Run S (Unit {0})
  unfolding serve_one
  serve arrivals = do
    _ ← Messages.consume raw "rpc.queue" "" false false false false none
    for_each serve_one arrivals

  unfoldable pub request_from : ℕ → String → Publishing
  request_from id reply_to =
      record (json
        (codes "{\"request_id\": " ++ digits (suc id) id ++ codes ", \"action\": \"process\"}")) {
          correlation_id = name id;
          reply_to = reply_to;
        }

  -- The select for the response; only the call's own is acknowledged. The result says whether the
  -- call has succeeded.
  unfoldable pub take_reply : ℕ → Reply × S → Bool × S
  take_reply id (replied d, s) =
      if same d.correlation_id (name id) then (true, acks.ack d false s) else (false, s)
  take_reply id (reply_closed, s) = (false, s)
  take_reply id (timed_out, s) = (false, s)

  module _ (wait : ℕ → S → Reply × S) where
    received : ℕ → ℕ → Run S Bool
    unfolding take_reply
    received id deliveries ch s =
        let (done, s') = take_reply id (wait deliveries s) in (ok done, ch, s')

    -- A call on its channel; an error ends it.
    unfoldable pub call_on : ℕ → Run S Bool
    unfolding received request_from
    call_on id = do
      q ← Topology.queue_declare raw "" false true true false none
      must (Topology.queue_bind raw q.name q.name "rpc.exchange" false none)
      deliveries ← Messages.consume raw q.name "" false false false false none
      must (Publish.publish raw "rpc.exchange" "rpc.queue" false false (request_from id q.name))
      received id deliveries

    -- defer ch.Close()
    call_closed : Result Bool × Channel S × S → Bool × S
    call_closed (r, ch, s) =
        let (e, ch', s') = close raw ch s in (elim r [ ok done ↦ done | err x ↦ false ], s')

    call_opened : ℕ → Result (Channel S) × S → Bool × S
    unfolding call_on call_closed
    call_opened id (err e, s) = (false, s)
    call_opened id (ok ch, s) = call_closed (call_on id ch s)

    unfoldable pub rpc_call : host.Handle → ℕ → S → Bool × S
    unfolding call_opened
    rpc_call client id s = call_opened id (host.new_channel client s)

  unfoldable pub declare_server : Run S (Unit {0})
  declare_server = declare_direct raw "rpc.exchange" "rpc.queue" "rpc.queue"
