-- ===== src/Reconnect.antt =====
-- reconnect.go: the reconnect policy, the manager that counts attempts, and its loop. float64 and
-- math.Pow are a parameter; so are the logger, time.Sleep, the callbacks and the dial function.
pub mod Attempts
use eamqp.Base.{
  ℕ, zero, suc, ◌+◌, ◌-◌, ◌*◌, ◌%◌, ◌^◌, Bool, true, false, not, ◌&&◌, Option, none, some, Error,
  if◌then◌else◌,
}
use eamqp.Base.Int.{ℤ, pos, negsuc, leb_ℤ, ltb_ℤ, of_int32, ◌+ℤ◌}

-- float64: conversions from and to int64, multiplication, math.Pow, and the tests that the code uses.
pub record Floats (F : Type 0) : Type 0 where
  pub of_int : ℤ → F
  pub to_int : F → ℤ
  pub times : F → F → F
  pub pow : F → F → F
  pub is_zero : F → Bool
  pub is_greater : F → F → Bool

pub record ReconnectPolicy (F : Type 0) : Type 0 where
  pub enabled : Bool
  pub initial : ℤ
  pub max : ℤ
  pub multiplier : F
  pub max_attempts : ℤ

-- `attempt` is an int32 bit pattern. The callbacks change the world.
pub record Manager (F W : Type 0) : Type 0 where
  pub policy : ReconnectPolicy F
  pub attempt : ℕ
  pub on_reconnect : ℤ → W → W
  pub on_disconnect : Error → W → W
  pub has_logger : Bool

-- What the loop does besides dialling.
pub record Surroundings (W : Type 0) : Type 0 where
  pub warn : ℤ → ℤ → W → W
  pub report : ℤ → Error → W → W
  pub sleep : ℤ → W → W

-- -1 as an int32.
abbrev pub minus_one : ℕ
minus_one = 2 ^ 32 - 1

-- int32(n), as a bit pattern.
abbrev pub int32_of : ℤ → ℕ
int32_of (pos n) = n % 2 ^ 32
int32_of (negsuc n) = 2 ^ 32 - 1 - n % 2 ^ 32

module _ {F : Type 0} (floats : Floats F) where
  abbrev pub second : ℕ
  second = 1000000000

  pub default_reconnect_policy : ReconnectPolicy F
  default_reconnect_policy = record {
    enabled = true;
    initial = pos second;
    max = pos (30 * second);
    multiplier = floats.of_int (pos 2);
    max_attempts = pos 0;
  }

  unfoldable pub backoff : ReconnectPolicy F → ℤ → ℤ
  backoff p attempt =
      let delay =
        floats.times (floats.of_int p.initial) (floats.pow p.multiplier (floats.of_int attempt)) in
      if leb_ℤ attempt (pos 0)
      then p.initial
      else if floats.is_zero p.multiplier
      then p.initial
      else if floats.is_greater delay (floats.of_int p.max)
      then floats.to_int (floats.of_int p.max)
      else floats.to_int delay

abbrev given : {W : Type 0} → Option (ℤ → W → W) → ℤ → W → W
given none a w = w
given (some f) a w = f a w

abbrev told : {W : Type 0} → Option (Error → W → W) → Error → W → W
told none e w = w
told (some f) e w = f e w

module _ {F W : Type 0} where
  -- The callbacks of the options, where they are set.
  unfoldable pub new_reconnect_manager :
      ReconnectPolicy F → Option (ℤ → W → W) → Option (Error → W → W) → Bool → Manager F W
  new_reconnect_manager policy on_reconnect on_disconnect has_logger = record {
    policy = policy;
    attempt = minus_one;
    on_reconnect = given on_reconnect;
    on_disconnect = told on_disconnect;
    has_logger = has_logger;
  }

  abbrev pub reset : Manager F W → Manager F W
  reset rm = record rm { attempt = minus_one }

  -- The attempt's number, whether to proceed, and the manager.
  unfoldable pub next : Manager F W → ℤ × Bool × Manager F W
  next rm =
      let a = (rm.attempt + 1) % 2 ^ 32 in
      let over =
        ltb_ℤ (pos 0) rm.policy.max_attempts
        && leb_ℤ (of_int32 (int32_of rm.policy.max_attempts)) (of_int32 a) in
      if not rm.policy.enabled
      then (pos 0, false, rm)
      else (of_int32 a, not over, record rm { attempt = a })

  pub on_lost_connection : Error → Manager F W → W → W
  on_lost_connection e rm w = rm.on_disconnect e w

  module _ (floats : Floats F) (around : Surroundings W) (dial : W → Option Error × W) where
    -- The wait before the dial: none before the first attempt.
    unfoldable pub pause : ℤ → Manager F W → W → W
    pause attempt rm w =
        let delay = backoff floats rm.policy attempt in
        let warned = if rm.has_logger then around.warn (attempt +ℤ pos 1) delay w else w in
        if ltb_ℤ (pos 0) attempt && ltb_ℤ (pos 0) delay then around.sleep delay warned else w

    unfoldable pub failed : ℤ → Error → Manager F W → W → W
    failed attempt e rm w = if rm.has_logger then around.report (attempt +ℤ pos 1) e w else w

    -- What follows the dial: `rest` is the next round of the loop.
    unfoldable pub dialled :
        ℤ
        → Option Error × W
        → Manager F W
        → (W → Option (Option Error × Manager F W × W))
        → Option (Option Error × Manager F W × W)
    dialled a (none, w) rm rest = some (none, reset rm, rm.on_reconnect a w)
    dialled a (some e, w) rm rest = rest (failed a e rm w)

    -- ReconnectLoop's result, which is always nil, on fuel: one unit for each round.
    unfoldable pub reconnect_loop : ℕ → Manager F W → W → Option (Option Error × Manager F W × W)
    reconnect_loop zero rm w = none
    reconnect_loop (suc fuel) rm w =
        let (a, proceed, rm') = next rm in
        let rest = dialled a (dial (pause a rm' w)) rm' (reconnect_loop fuel rm') in
        if proceed then rest else some (none, rm', w)
