-- ===== src/Pool/Accounting.antt =====
-- pool.go, ChannelPool: what each step does to the permits, the `active` counter and the idle buffer.
use eamqp.Base.{
  ℕ, ◌+◌, ◌^◌, ◌≤◌, ◌<◌, ◌≡◌, ◌⊎◌, Bool, true, false, Option, none, some, [], ◌∷◌, arith, length,
  length-append, All, All-append,
}
use eamqp.Amqp.{Amqp, ChannelOptions}
use eamqp.Pool.{ChannelPool}
use eamqp.Pool.Steps.{
  Next, drain, Pc, head, polling, checking, claiming, counting, opening, tallying, configuring,
  waiting, leased, failed, freeing, lowering, swapping, closing, draining, finished, Turn, step,
}

-- The permits that a goroutine holds at a place.
abbrev pub held : Pc → ℕ
held (checking ch) = 1
held counting = 1
held opening = 1
held (tallying c) = 1
held (configuring c) = 1
held (leased c) = 1
held (freeing next) = 1
held _ = 0

-- Its token is in `permits`, and `active` does not count it yet.
abbrev pub uncounted : Pc → ℕ
uncounted counting = 1
uncounted _ = 0

-- Its token has left `permits`, and `active` counts it still.
abbrev pub unlowered : Pc → ℕ
unlowered (lowering next) = 1
unlowered (swapping next seen) = 1
unlowered _ = 0

abbrev goes_on : Next → ℕ
goes_on drain = 1
goes_on _ = 0

-- It is in Close's loop.
abbrev pub drains : Pc → ℕ
drains draining = 1
drains (freeing next) = goes_on next
drains (lowering next) = goes_on next
drains (swapping next seen) = goes_on next
drains _ = 0

abbrev pub IsPointer : Option ℕ → Type 0
IsPointer none = ⊥
IsPointer (some c) = Unit {0}

-- The pool's books, where `n` is the capacity of `permits` and the goroutines hold `h` permits, `u` of
-- them not counted, have `l` releases not counted, and `d` of them run Close's loop.
pub record Balance (n h u l d : ℕ) (p : ChannelPool) : Type 0 where
  pub limited : p.limit ≡ some n
  pub tokens_exact : p.tokens ≡ length p.idle + h
  pub within : p.tokens ≤ n
  pub active_exact : p.active + u ≡ p.tokens + l
  pub idle_bounded : length p.idle ≤ p.idle_cap
  pub idle_pointers : All IsPointer p.idle
  pub open_channels : p.closed ≡ false → (p.has_channels ≡ true) × (p.idle_closed ≡ false)
  pub shut_channels : p.closed ≡ true → (p.has_channels ≡ false) × (p.idle_closed ≡ true)
  pub drained : p.closed ≡ true → (p.idle ≡ []) ⊎ (0 < d)

module _ {W : Type 0} (amqp : Amqp W) (opts : ChannelOptions W) (t : Turn) (n h u l d : ℕ) where
  abbrev Keeps : Pc → ChannelPool → W → Type 0
  Keeps pc p w =
      u ≤ h
      → n + l + 1 < 2 ^ 63
      → Balance n (held pc + h) (uncounted pc + u) (unlowered pc + l) (drains pc + d) p
      → let (pc', p', w') = step amqp opts t pc p w in
        Balance n (held pc' + h) (uncounted pc' + u) (unlowered pc' + l) (drains pc' + d) p'

  head-Keeps : (p : ChannelPool) (w : W) → Keeps head p w
  unfolding step
  head-Keeps p w o r b = ground arith

  polling-Keeps : (live : Bool) (p : ChannelPool) (w : W) → Keeps (polling live) p w
  unfolding step
  polling-Keeps live p w o r b = ground arith

  counting-Keeps : (p : ChannelPool) (w : W) → Keeps counting p w
  unfolding step
  counting-Keeps p w o r b = ground arith

  lowering-Keeps : (next : Next) (p : ChannelPool) (w : W) → Keeps (lowering next) p w
  unfolding step
  lowering-Keeps next p w o r b = ground arith

  leased-Keeps : (c : ℕ) (p : ChannelPool) (w : W) → Keeps (leased c) p w
  unfolding step
  leased-Keeps c p w o r b =
      ground (arith, length-append p.idle (some c ∷ []), All-append IsPointer p.idle (some c ∷ []))

  checking-Keeps : (ch : Option ℕ) (p : ChannelPool) (w : W) → Keeps (checking ch) p w
  unfolding step
  checking-Keeps ch p w o r b = ground arith

  claiming-Keeps : (live : Bool) (p : ChannelPool) (w : W) → Keeps (claiming live) p w
  unfolding step
  claiming-Keeps live p w o r b = ground arith

  opening-Keeps : (p : ChannelPool) (w : W) → Keeps opening p w
  unfolding step
  opening-Keeps p w o r b = ground arith

  configuring-Keeps : (c : ℕ) (p : ChannelPool) (w : W) → Keeps (configuring c) p w
  unfolding step
  configuring-Keeps c p w o r b = ground arith

  waiting-Keeps : (live : Bool) (p : ChannelPool) (w : W) → Keeps (waiting live) p w
  unfolding step
  waiting-Keeps live p w o r b = ground arith

  freeing-Keeps : (next : Next) (p : ChannelPool) (w : W) → Keeps (freeing next) p w
  unfolding step
  freeing-Keeps next p w o r b = ground arith

  swapping-Keeps :
      (next : Next) (seen : ℕ) (p : ChannelPool) (w : W) → Keeps (swapping next seen) p w
  unfolding step
  swapping-Keeps next seen p w o r b = ground arith

  closing-Keeps : (p : ChannelPool) (w : W) → Keeps closing p w
  unfolding step
  closing-Keeps p w o r b = ground arith

  draining-Keeps : (p : ChannelPool) (w : W) → Keeps draining p w
  unfolding step
  draining-Keeps p w o r b = ground arith

  -- Every step of every goroutine keeps the books.
  pub step-Balance : (pc : Pc) (p : ChannelPool) (w : W) → Keeps pc p w
  unfolding step
  step-Balance head p w = head-Keeps p w
  step-Balance (polling live) p w = polling-Keeps live p w
  step-Balance (checking ch) p w = checking-Keeps ch p w
  step-Balance (claiming live) p w = claiming-Keeps live p w
  step-Balance counting p w = counting-Keeps p w
  step-Balance opening p w = opening-Keeps p w
  step-Balance (tallying c) p w = λ o r b. ground arith
  step-Balance (configuring c) p w = configuring-Keeps c p w
  step-Balance (waiting live) p w = waiting-Keeps live p w
  step-Balance (leased c) p w = leased-Keeps c p w
  step-Balance (failed e) p w = λ o r b. b
  step-Balance (freeing next) p w = freeing-Keeps next p w
  step-Balance (lowering next) p w = lowering-Keeps next p w
  step-Balance (swapping next seen) p w = swapping-Keeps next seen p w
  step-Balance closing p w = closing-Keeps p w
  step-Balance draining p w = draining-Keeps p w
  step-Balance finished p w = λ o r b. b
