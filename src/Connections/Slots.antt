-- ===== src/Connections/Slots.antt =====
-- pool.go, ConnectionPool: its slots, filled from the left, and what it means that a slot is shut.
use eamqp.Base.{
  ℕ, zero, suc, ◌≤◌, ◌<◌, ◌≡◌, true, Option, none, some, List, [], ◌∷◌, arith, length, set,
  get_elem?, replicate, All,
}
use eamqp.Base.Int.{ℤ}
use eamqp.Amqp.{Amqp}
use eamqp.Connections.{slots}

pub slots-le : (size : ℤ) (n : ℕ) → 0 < n → slots size n ≤ n
slots-le size n h = ground arith

-- Closing a connection, by amqp091-go's contract, leaves it closed for good.
pub record Closing {W : Type 0} (amqp : Amqp W) : Type 0 where
  pub closes : (c : ℕ) (w : W) → amqp.connection_is_closed c (amqp.close_connection c w).1 ≡ true
  pub stays :
      (c d : ℕ) (w : W)
      → amqp.connection_is_closed d w ≡ true
      → amqp.connection_is_closed d (amqp.close_connection c w).1 ≡ true

-- Closing a channel leaves it closed for good, and opens nothing; nor does closing a connection.
pub record ClosingChannels {W : Type 0} (amqp : Amqp W) : Type 0 where
  pub closes_channel : (c : ℕ) (w : W) → amqp.channel_is_closed c (amqp.close_channel c w).1 ≡ true
  pub stays_closed :
      (c d : ℕ) (w : W)
      → amqp.channel_is_closed d w ≡ true
      → amqp.channel_is_closed d (amqp.close_channel c w).1 ≡ true
  pub stays_closed_below :
      (c d : ℕ) (w : W)
      → amqp.channel_is_closed d w ≡ true
      → amqp.channel_is_closed d (amqp.close_connection c w).1 ≡ true
  pub stays_down :
      (c d : ℕ) (w : W)
      → amqp.connection_is_closed d w ≡ true
      → amqp.connection_is_closed d (amqp.close_channel c w).1 ≡ true

abbrev pub IsFilled {ℓ} : {A : Type ℓ} → Option A → Type 0
IsFilled none = ⊥
IsFilled (some a) = Unit {0}

abbrev pub IsNil {ℓ} : {A : Type ℓ} → Option A → Type 0
IsNil none = Unit {0}
IsNil (some a) = ⊥

-- The first `i` slots are filled and the others are nil.
abbrev pub Slots {ℓ} : {A : Type ℓ} → ℕ → List (Option A) → Type 0
Slots zero xs = All IsNil xs
Slots (suc i) [] = ⊥
Slots (suc i) (x ∷ xs) = IsFilled x × Slots i xs

pub Slots-set {ℓ} :
    {A : Type ℓ} (i : ℕ) (xs : List (Option A)) (a : A)
    → i < length xs
    → Slots i xs
    → Slots (suc i) (set xs i (some a))
Slots-set zero [] a h f = elim h [ ]
Slots-set zero (x ∷ xs) a h f = (tt, f.1)
Slots-set (suc i) [] a h f = elim h [ ]
Slots-set (suc i) (x ∷ xs) a h f = (f.0, Slots-set i xs a (omega arith) f.1)

pub Slots-replicate {ℓ} : (A : Type ℓ) (n : ℕ) → Slots {A = A} 0 (replicate n none)
Slots-replicate A zero = tt
Slots-replicate A (suc n) = (tt, Slots-replicate A n)

pub Slots-full {ℓ} :
    {A : Type ℓ} (i : ℕ) (xs : List (Option A)) → i ≡ length xs → Slots i xs → All IsFilled xs
Slots-full zero [] h s = tt
Slots-full zero (x ∷ xs) h s = absurd (omega arith)
Slots-full (suc i) [] h s = absurd s
Slots-full (suc i) (x ∷ xs) h s = (s.0, Slots-full i xs (omega arith) s.1)

-- A nil slot, or a connection that is closed.
abbrev pub IsShut : {W : Type 0} → Amqp W → W → Option ℕ → Type 0
IsShut amqp w none = Unit {0}
IsShut amqp w (some c) = amqp.connection_is_closed c w ≡ true

pub nil-IsShut :
    {W : Type 0} (amqp : Amqp W) (w : W) (xs : List (Option ℕ))
    → All IsNil xs
    → All (IsShut amqp w) xs
nil-IsShut amqp w [] a = tt
nil-IsShut amqp w (none ∷ xs) a = (tt, nil-IsShut amqp w xs a.1)
nil-IsShut amqp w (some c ∷ xs) a = absurd a.0

pub shut_at :
    {W : Type 0} (amqp : Amqp W) (cs : List (Option ℕ)) (j d : ℕ) (w : W)
    → All (IsShut amqp w) cs
    → get_elem? cs j ≡ some (some d)
    → amqp.connection_is_closed d w ≡ true
shut_at amqp [] j d w a e = ground arith
shut_at amqp (none ∷ cs) zero d w a e = ground arith
shut_at amqp (some x ∷ cs) zero d w a e = let same : x ≡ d = ground arith in rw (← same) a.0
shut_at amqp (x ∷ cs) (suc j) d w a e = shut_at amqp cs j d w a.1 e
