-- ===== src/Tables.antt =====
-- types.go, QueueArgs, and trace.go, the carrier of a trace context: maps from names to values, as
-- association lists that name each key once.
pub mod Lookup
pub mod Settings
pub mod Trace
use eamqp.Base.{
  ℕ, zero, suc, ◌+◌, ◌/◌, String, same, same_iff, same_refl, Bool, true, false, Option, none, some,
  List, [], ◌∷◌, if◌then◌else◌,
}
use eamqp.Base.Int.{ℤ, pos, negsuc}
use eamqp.Amqp.Values.{Value, null, text, bytes, number, flag, others}

abbrev pub Entries : Type 0
Entries = List (String × Value)

-- m[key], `none` where the key is missing.
unfoldable pub get : String → Entries → Option Value
get key [] = none
get key ((k, v) ∷ m) = let rest = get key m in if same key k then some v else rest

-- m[key] = value
unfoldable pub put : String → Value → Entries → Entries
put key value [] = (key, value) ∷ []
put key value ((k, v) ∷ m) =
    let rest = put key value m in if same key k then (key, value) ∷ m else (k, v) ∷ rest

-- for key := range m
abbrev pub keys : Entries → List String
keys [] = []
keys ((k, v) ∷ m) = k ∷ keys m

-- Duration.Milliseconds: the quotient of the nanoseconds, towards zero.
abbrev pub milliseconds : ℤ → ℤ
milliseconds (pos n) = pos (n / 1000000)
milliseconds (negsuc n) = minus ((n + 1) / 1000000)
  where
    minus : ℕ → ℤ
    minus k = elim k [ zero ↦ pos 0 | suc j ↦ negsuc j ]

-- NewQueueArgs
abbrev pub new_queue_args : Entries
new_queue_args = []

unfoldable pub with_durable : Bool → Entries → Entries
with_durable durable a = if durable then put "x-queue-type" (text "classic") a else a

unfoldable pub with_queue_type : String → Entries → Entries
with_queue_type qt a = put "x-queue-type" (text qt) a

unfoldable pub with_max_length : ℤ → Entries → Entries
with_max_length n a = put "x-max-length" (number n) a

unfoldable pub with_max_length_bytes : ℤ → Entries → Entries
with_max_length_bytes n a = put "x-max-length-bytes" (number n) a

unfoldable pub with_overflow : String → Entries → Entries
with_overflow behavior a = put "x-overflow" (text behavior) a

unfoldable pub with_message_ttl : ℤ → Entries → Entries
with_message_ttl ttl a = put "x-message-ttl" (number (milliseconds ttl)) a

unfoldable pub with_queue_ttl : ℤ → Entries → Entries
with_queue_ttl ttl a = put "x-expires" (number (milliseconds ttl)) a

unfoldable pub with_single_active_consumer : Entries → Entries
with_single_active_consumer a = put "x-single-active-consumer" (flag true) a

unfoldable pub with_dead_letter_exchange : String → Entries → Entries
with_dead_letter_exchange dlx a = put "x-dead-letter-exchange" (text dlx) a

unfoldable pub with_dead_letter_routing_key : String → Entries → Entries
with_dead_letter_routing_key key a = put "x-dead-letter-routing-key" (text key) a
