-- ===== src/Pool/Exclusive.antt =====
-- pool.go, ChannelPool under concurrent use: who holds a raw channel.
use eamqp.Base.{
  ℕ, ◌+◌, ◌≤◌, ◌<◌, ◌≡◌, refl, Option, none, some, List, [], ◌∷◌, Error, Result, ok, err, arith,
  ◌==◌, if◌then◌else◌, get_elem?, sum_by, sum_by-set, sum_by-others, le-others, ℕ_discrete,
  sum_by-replicate, sum_by-append, others, All,
}
use eamqp.Amqp.{Amqp, ChannelOptions}
use eamqp.Pool.{ChannelPool, PoolConfig, new_channel_pool, close_quietly}
use eamqp.Pool.Steps.{
  Pc, head, polling, checking, opening, tallying, configuring, waiting, leased, failed, closing,
  draining, finished, Turn, step, open_result, configure_result, configure, release, drain_next,
}
use eamqp.Pool.Machine.{
  System, Event, turn, acquires, closes, outside, begin, advance, happen, run, initial,
}

abbrev pub Issues : {W : Type 0} → (W → ℕ) → W → Result ℕ × W → Type 0
Issues issued w (ok c, w') = (issued w ≤ c) × (c < issued w')
Issues issued w (err e, w') = issued w ≤ issued w'

abbrev pub ConfiguresOld : {W : Type 0} → (W → ℕ) → ChannelOptions W → Type 0
ConfiguresOld issued none = Unit {0}
ConfiguresOld {W} issued (some f) = (c : ℕ) (w : W) → issued w ≤ issued (f c w).1

-- amqp091-go's `Channel` makes a new object each time. Numbers stand for the objects in the order in
-- which they are made: `issued` bounds those made so far, and nothing makes it fall.
pub record Fresh {W : Type 0} (amqp : Amqp W) (opts : ChannelOptions W) : Type 0 where
  pub issued : W → ℕ
  pub opens : (conn : ℕ) (w : W) → Issues issued w (amqp.open_channel conn w)
  pub closes_channel : (c : ℕ) (w : W) → issued w ≤ issued (amqp.close_channel c w).1
  pub configures : ConfiguresOld issued opts

-- How often the raw channel `c` is in a buffered pointer, and in a goroutine's hands.
abbrev pub is_pointer : ℕ → Option ℕ → ℕ
is_pointer c none = 0
is_pointer c (some d) = if d == c then 1 else 0

abbrev pub has : ℕ → Pc → ℕ
has c (checking ch) = is_pointer c ch
has c (tallying d) = is_pointer c (some d)
has c (configuring d) = is_pointer c (some d)
has c (leased d) = is_pointer c (some d)
has c _ = 0

-- `c` is in one place at most, and in none before it is made. `o` counts it at other goroutines.
abbrev Once : {W : Type 0} → (W → ℕ) → ℕ → ℕ → Pc → ChannelPool → W → Type 0
Once issued c o pc p w =
    (sum_by (is_pointer c) p.idle + has c pc + o ≤ 1)
    × (issued w ≤ c → sum_by (is_pointer c) p.idle + has c pc + o ≡ 0)

module _ {W : Type 0} (amqp : Amqp W) (opts : ChannelOptions W) (fresh : Fresh amqp opts)
    (c o : ℕ) where
  abbrev StaysOnce : W → Pc × ChannelPool × W → Type 0
  StaysOnce w r = Once fresh.issued c o r.0 r.1 r.2 × (fresh.issued w ≤ fresh.issued r.2)

  opened-Once :
      (p : ChannelPool) (w : W) (r : Result ℕ × W)
      → Issues fresh.issued w r
      → Once fresh.issued c o opening p w
      → StaysOnce w (open_result amqp r p)
  unfolding open_result
  opened-Once p w (ok d, w') i h = ground arith
  opened-Once p w (err e, w') i h = ground arith

  quiet-Once : (ch : Option ℕ) (w : W) → fresh.issued w ≤ fresh.issued (close_quietly amqp ch w)
  unfolding close_quietly
  quiet-Once none w = omega arith
  quiet-Once (some d) w = fresh.closes_channel d w

  configured-Once :
      (d : ℕ) (p : ChannelPool) (w : W) (r : Option Error × W)
      → fresh.issued w ≤ fresh.issued r.1
      → Once fresh.issued c o (configuring d) p w
      → StaysOnce w (configure_result amqp d r p)
  unfolding configure_result
  configured-Once d p w (none, w') i h = ground arith
  configured-Once d p w (some e, w') i h = ground (arith, quiet-Once (some d) w')

  configure-Once :
      (f : ChannelOptions W) (d : ℕ) (p : ChannelPool) (w : W)
      → ConfiguresOld fresh.issued f
      → Once fresh.issued c o (configuring d) p w
      → StaysOnce w (configure amqp f d p w)
  unfolding configure
  configure-Once none d p w k h = (h, omega arith)
  configure-Once (some f) d p w k h = configured-Once d p w (f d w) (k d w) h

  release-Once :
      (d : ℕ) (p : ChannelPool) (w : W)
      → Once fresh.issued c o (leased d) p w
      → StaysOnce w (release amqp (some d) p w)
  unfolding release
  release-Once d p w h =
      ground (arith, quiet-Once (some d) w, sum_by-append (is_pointer c) p.idle (some d ∷ []))

  drained-Once :
      (l : List (Option ℕ)) (p : ChannelPool) (w : W)
      → p.idle ≡ l
      → Once fresh.issued c o draining p w
      → StaysOnce w (drain_next amqp l p w)
  unfolding drain_next
  drained-Once [] p w e h = ground arith
  drained-Once (none ∷ rest) p w e h = ground arith
  drained-Once (some d ∷ rest) p w e h = ground (arith, quiet-Once (some d) w)

  -- Every step keeps each raw channel in one place at most.
  step-Once :
      (t : Turn) (pc : Pc) (p : ChannelPool) (w : W)
      → Once fresh.issued c o pc p w
      → StaysOnce w (step amqp opts t pc p w)
  unfolding step
  step-Once t (polling live) p w h = ground arith
  step-Once t (checking ch) p w h = ground arith
  step-Once t opening p w h = opened-Once p w (amqp.open_channel p.conn w) (fresh.opens p.conn w) h
  step-Once t (configuring d) p w h = configure-Once opts d p w fresh.configures h
  step-Once t (waiting live) p w h = ground arith
  step-Once t (leased d) p w h = ground (arith, release-Once d p w h, quiet-Once (some d) w)
  step-Once t draining p w h = drained-Once p.idle p w refl h
  step-Once t pc p w h = ground arith

-- What the world does by itself makes no new channel objects of ours disappear.
abbrev pub KeepsIssued : {W : Type 0} → (W → ℕ) → Event W → Type 0
KeepsIssued {W} issued (outside f) = (w : W) → issued w ≤ issued (f w)
KeepsIssued issued _ = Unit {0}

abbrev OnceIn : {W : Type 0} → (W → ℕ) → ℕ → System W → Type 0
OnceIn issued c s =
    (sum_by (is_pointer c) s.pool.idle + sum_by (has c) s.threads ≤ 1)
    × (issued s.world ≤ c → sum_by (is_pointer c) s.pool.idle + sum_by (has c) s.threads ≡ 0)

module _ {W : Type 0} (amqp : Amqp W) (opts : ChannelOptions W) (fresh : Fresh amqp opts)
    (c : ℕ) where
  advance-Once :
      (t : Turn) (i : ℕ) (o : Option Pc) (s : System W)
      → get_elem? s.threads i ≡ o
      → OnceIn fresh.issued c s
      → OnceIn fresh.issued c (advance amqp opts t i o s)
  unfolding advance
  advance-Once t i none s e h = h
  advance-Once t i (some pc) s e h =
      let r = step amqp opts t pc s.pool s.world in
      let stays =
        step-Once amqp opts fresh c (others (has c) s.threads i) t pc s.pool s.world
          (omega (arith, h, sum_by-others (has c) s.threads i pc e)) in
      omega (arith, stays.0, sum_by-set (has c) s.threads i pc r.0 e)

  begin-Once :
      (start : Pc) (i : ℕ) (o : Option Pc) (s : System W)
      → has c start ≡ 0
      → get_elem? s.threads i ≡ o
      → OnceIn fresh.issued c s
      → OnceIn fresh.issued c (begin start i o s)
  unfolding begin
  begin-Once start i (some finished) s z e h = omega (
    arith,
    h,
    z,
    sum_by-others (has c) s.threads i finished e,
    sum_by-set (has c) s.threads i finished start e,
  )
  begin-Once start i (some (failed x)) s z e h = omega (
    arith,
    h,
    z,
    sum_by-others (has c) s.threads i (failed x) e,
    sum_by-set (has c) s.threads i (failed x) start e,
  )
  begin-Once start i _ s z e h = h

  happen-Once :
      (ev : Event W) (s : System W)
      → KeepsIssued fresh.issued ev
      → OnceIn fresh.issued c s
      → OnceIn fresh.issued c (happen amqp opts ev s)
  unfolding happen
  happen-Once (turn i t) s k h = advance-Once t i (get_elem? s.threads i) s refl h
  happen-Once (acquires i) s k h = begin-Once head i (get_elem? s.threads i) s refl refl h
  happen-Once (closes i) s k h = begin-Once closing i (get_elem? s.threads i) s refl refl h
  happen-Once (outside f) s k h = omega (arith, k s.world, h)

  run-Once :
      (es : List (Event W)) (s : System W)
      → All (KeepsIssued fresh.issued) es
      → OnceIn fresh.issued c s
      → OnceIn fresh.issued c (run amqp opts es s)
  unfolding run
  run-Once [] s k h = h
  run-Once (e ∷ es) s k h = run-Once es (happen amqp opts e s) k.1 (happen-Once e s k.0 h)

  initial-Once :
      (conn : ℕ) (cfg : PoolConfig) (w : W) (k : ℕ) → OnceIn fresh.issued c (initial conn cfg w k)
  unfolding initial new_channel_pool
  initial-Once conn cfg w k = omega (arith, sum_by-replicate (has c) k finished refl)

  -- In every interleaving on a new channel pool, a raw channel is leased to at most one goroutine,
  -- and while it is leased it is not in the idle buffer. (amqp091-go makes a new channel object in each
  -- call of `Channel`.)
  pub lease_exclusive :
      (conn : ℕ) (cfg : PoolConfig) (w : W) (k : ℕ) (es : List (Event W)) (i j : ℕ)
      → All (KeepsIssued fresh.issued) es
      → get_elem? (run amqp opts es (initial conn cfg w k)).threads i ≡ some (leased c)
      → get_elem? (run amqp opts es (initial conn cfg w k)).threads j ≡ some (leased c)
      → (i ≡ j) × (sum_by (is_pointer c) (run amqp opts es (initial conn cfg w k)).pool.idle ≡ 0)
  lease_exclusive conn cfg w k es i j keeps ei ej =
      let s = run amqp opts es (initial conn cfg w k) in
      let once = run-Once es (initial conn cfg w k) keeps (initial-Once conn cfg w k) in
      let one = sum_by-others (has c) s.threads i (leased c) ei in
      let mine : has c (leased c) ≡ 1 = ground arith in
      elim (ℕ_discrete i j) [
        | yes e ↦ (e, omega (arith, once, one, mine))
        | no n ↦
            absurd (omega (arith, once, one, mine, le-others (has c) s.threads i j (leased c) n ej))
      ]
