-- ===== src/Examples/RetryListener.antt =====
-- examples/retry-consumer-listener/main.go: a handler that counts its retries in a header, for
-- ConsumeWithWorkers.
use eamqp.Base.{
  ℕ, ◌+◌, ◌-◌, ◌*◌, ◌^◌, false, ◌&&◌, Option, none, some, [], ◌∷◌, Error, Result, ok, err, leb, ltb,
  ◌==◌, if◌then◌else◌,
}
use eamqp.Base.Int.{ℤ, pos, ◌+ℤ◌, leb_ℤ, sub_ℕ}
use eamqp.Text.{Text, codes, is_empty}
use eamqp.Amqp.Values.{Value, Table, null, text, bytes, number, flag, others, Delivery, Publishing}
use eamqp.Amqp.Raw.{Raw}
use eamqp.Tables.{Entries, get, put}
use eamqp.Channel.{Channel}
use eamqp.Consumer.{Acknowledger, Handler}
use eamqp.Examples.Program.{Run, ◌>>=◌, ◌>>◌, pure, outside, json, try_publish, declare_direct}
use eamqp.Examples.DeadLetter.{contains}

-- The number that decimal digits write.
digits_value : Text → ℕ → Option ℕ
digits_value [] n = some n
digits_value (c ∷ s) n =
    let rest = digits_value s (n * 10 + (c - 48)) in if leb 48 c && leb c 57 then rest else none

positive : Option ℕ → Option ℤ
positive none = none
positive (some n) = if ltb n (2 ^ 63) then some (pos n) else none

negative : Option ℕ → Option ℤ
negative none = none
negative (some n) = if leb n (2 ^ 63) then some (sub_ℕ 0 n) else none

unsigned : Text → Option ℕ
unfolding digits_value
unsigned s = if is_empty s then none else digits_value s 0

-- strconv.Atoi, for a 64-bit int.
unfoldable pub atoi : Text → Option ℤ
unfolding unsigned positive negative
atoi [] = none
atoi (c ∷ s) =
    if c == 45
    then negative (unsigned s)
    else if c == 43
    then positive (unsigned s)
    else positive (unsigned (c ∷ s))

or_zero : Option ℤ → ℤ
or_zero none = pos 0
or_zero (some n) = n

count_in : Option Value → ℤ
unfolding or_zero atoi
count_in none = pos 0
count_in (some (number n)) = n
count_in (some (text t)) = or_zero (atoi (codes t))
count_in (some null) = pos 0
count_in (some (bytes b)) = pos 0
count_in (some (flag b)) = pos 0
count_in (some (others n)) = pos 0

-- getRetryCount; a number in the header is an int64 or an int.
unfoldable pub get_retry_count : Table → ℤ
unfolding count_in
get_retry_count none = pos 0
get_retry_count (some m) = count_in (get "x-retry-count" m)

unfoldable pub copy_headers : Table → Entries
copy_headers none = []
copy_headers (some m) = m

abbrev max_retries : ℤ
max_retries = pos 3

module _ {S : Type 0} (raw : Raw S) (acks : Acknowledger S) where
  -- The exchange and the queue of the listener.
  unfoldable pub set_up : Run S (Unit {0})
  set_up = declare_direct raw "retry.ex" "retry.queue" "retry.test"

  -- The message again, with its count raised by one.
  unfoldable pub retried : Delivery → Publishing
  unfolding copy_headers
  retried d = record (json d.body) {
    headers = some (
        put "x-retry-count" (number (get_retry_count d.headers +ℤ pos 1)) (copy_headers d.headers));
  }

  unfoldable pub try_again : Delivery → Run S (Unit {0})
  unfolding retried
  try_again d = do
    outside (acks.ack d false)
    _ ← try_publish raw "retry.ex" "retry.test" (retried d)
    pure tt

  -- The handler, which always returns nil.
  unfoldable pub handle : Delivery → Run S (Unit {0})
  unfolding try_again
  handle d =
      if contains (codes "die") d.body
      then outside (acks.nack d false false)
      else if contains (codes "fail") d.body
      then if leb_ℤ max_retries (get_retry_count d.headers)
        then outside (acks.nack d false false)
        else try_again d
      else outside (acks.ack d false)

  -- The handler as ConsumeWithWorkers gets it: the channel that it publishes on is part of its state.
  unfoldable pub to_error : Result (Unit {0}) × Channel S × S → Option Error × (Channel S × S)
  to_error (ok u, ch, s) = (none, (ch, s))
  to_error (err e, ch, s) = (some e, (ch, s))

  unfoldable pub retry_listener : Handler (Channel S × S)
  unfolding handle to_error
  retry_listener d t = to_error (handle d t.0 t.1)

  -- The acknowledgements of ConsumeWithWorkers' own, on that state.
  abbrev pub with_own : Acknowledger (Channel S × S)
  with_own = record {
    ack = λ d many t. (t.0, acks.ack d many t.1);
    nack = λ d many requeue t. (t.0, acks.nack d many requeue t.1);
  }
