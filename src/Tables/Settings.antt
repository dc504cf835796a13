-- ===== src/Tables/Settings.antt =====
-- types.go, QueueArgs: the arguments after any sequence of its methods.
use eamqp.Base.{
  ◌≡◌, refl, ◌∙◌, ap, String, same, same_iff, Bool, true, false, Option, none, some, List, [], ◌∷◌,
  Bool-cases, inl, inr, arith, if◌then◌else◌,
}
use eamqp.Base.Int.{ℤ}
use eamqp.Amqp.Values.{Value, text, number, flag}
use eamqp.Tables.{
  Entries, get, put, milliseconds, with_durable, with_queue_type, with_max_length,
  with_max_length_bytes, with_overflow, with_message_ttl, with_queue_ttl,
  with_single_active_consumer, with_dead_letter_exchange, with_dead_letter_routing_key,
}
use eamqp.Tables.Lookup.{get-put, get-put_other}

-- A call of one of the methods.
pub data Setting : Type 0 where
  durable : Bool → Setting
  queue_type : String → Setting
  max_length max_length_bytes : ℤ → Setting
  overflow : String → Setting
  message_ttl queue_ttl : ℤ → Setting
  single_active_consumer : Setting
  dead_letter_exchange dead_letter_routing_key : String → Setting

unfoldable pub call : Setting → Entries → Entries
call (durable b) = with_durable b
call (queue_type t) = with_queue_type t
call (max_length n) = with_max_length n
call (max_length_bytes n) = with_max_length_bytes n
call (overflow b) = with_overflow b
call (message_ttl t) = with_message_ttl t
call (queue_ttl t) = with_queue_ttl t
call single_active_consumer = with_single_active_consumer
call (dead_letter_exchange x) = with_dead_letter_exchange x
call (dead_letter_routing_key k) = with_dead_letter_routing_key k

-- a.WithX(…).WithY(…)
unfoldable pub chain : List Setting → Entries → Entries
unfolding call
chain [] a = a
chain (x ∷ xs) a = chain xs (call x a)

-- The argument that a setting writes, if any.
abbrev pub argument : Setting → Option (String × Value)
argument (durable true) = some ("x-queue-type", text "classic")
argument (durable false) = none
argument (queue_type t) = some ("x-queue-type", text t)
argument (max_length n) = some ("x-max-length", number n)
argument (max_length_bytes n) = some ("x-max-length-bytes", number n)
argument (overflow b) = some ("x-overflow", text b)
argument (message_ttl t) = some ("x-message-ttl", number (milliseconds t))
argument (queue_ttl t) = some ("x-expires", number (milliseconds t))
argument single_active_consumer = some ("x-single-active-consumer", flag true)
argument (dead_letter_exchange x) = some ("x-dead-letter-exchange", text x)
argument (dead_letter_routing_key k) = some ("x-dead-letter-routing-key", text k)

-- The value that a setting gives to the key, or else the one given.
abbrev pub given : String → Option (String × Value) → Option Value → Option Value
given key none old = old
given key (some (k, v)) old = if same key k then some v else old

-- The value of the last of the settings that is for the key, or else the one given.
abbrev pub last_given : String → List Setting → Option Value → Option Value
last_given key [] old = old
last_given key (x ∷ xs) old = last_given key xs (given key (argument x) old)

get-given :
    (key k : String) (v : Value) (a : Entries)
    → get key (put k v a) ≡ given key (some (k, v)) (get key a)
get-given key k v a = elim (Bool-cases (same key k)) [
  | inl e ↦
      let key_k = (same_iff key k).0 e in rw e (ap (λ j. get j (put k v a)) key_k ∙ get-put k v a)
  | inr e ↦ rw e (get-put_other key k v a (λ p. let t = (same_iff key k).1 p in ground arith))
]

call-given :
    (key : String) (x : Setting) (a : Entries)
    → get key (call x a) ≡ given key (argument x) (get key a)
unfolding call with_durable with_queue_type with_max_length with_max_length_bytes with_overflow
    with_message_ttl with_queue_ttl with_single_active_consumer with_dead_letter_exchange
    with_dead_letter_routing_key
call-given key (durable true) a = get-given key _ _ a
call-given key (durable false) a = refl
call-given key (queue_type t) a = get-given key _ _ a
call-given key (max_length n) a = get-given key _ _ a
call-given key (max_length_bytes n) a = get-given key _ _ a
call-given key (overflow b) a = get-given key _ _ a
call-given key (message_ttl t) a = get-given key _ _ a
call-given key (queue_ttl t) a = get-given key _ _ a
call-given key single_active_consumer a = get-given key _ _ a
call-given key (dead_letter_exchange x) a = get-given key _ _ a
call-given key (dead_letter_routing_key k) a = get-given key _ _ a

-- After any sequence of calls of the With methods, each argument that one of them writes has the
-- value of the last setting for it, and every other argument is as before.
pub chain-last_given :
    (key : String) (xs : List Setting) (a : Entries)
    → get key (chain xs a) ≡ last_given key xs (get key a)
unfolding chain
chain-last_given key [] a = refl
chain-last_given key (x ∷ xs) a =
    chain-last_given key xs (call x a) ∙ ap (last_given key xs) (call-given key x a)
