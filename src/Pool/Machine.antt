-- ===== src/Pool/Machine.antt =====
-- pool.go, ChannelPool under concurrent use: goroutines that call Acquire, hold a channel, give it
-- back and call Close, in any interleaving of the steps of Pool/Steps. Each call's steps take the
-- pool's mutex in the critical sections that the code takes it in; `release` holds it a little longer
-- than here, so every interleaving of the program is among these.
use eamqp.Base.{ℕ, Option, some, none, List, [], ◌∷◌, get_elem?, set, replicate}
use eamqp.Amqp.{Amqp, ChannelOptions}
use eamqp.Pool.{ChannelPool, PoolConfig, new_channel_pool}
use eamqp.Pool.Steps.{Pc, head, failed, closing, finished, Turn, step}

pub record System (W : Type 0) : Type 0 where
  pub pool : ChannelPool
  pub world : W
  pub threads : List Pc

-- A goroutine takes a step; one between two calls begins Acquire or Close; the world changes by
-- itself, as when the broker closes a channel.
pub data Event (W : Type 0) : Type 0 where
  turn : ℕ → Turn → Event W
  acquires : ℕ → Event W
  closes : ℕ → Event W
  outside : (W → W) → Event W

module _ {W : Type 0} where
  unfoldable pub begin : Pc → ℕ → Option Pc → System W → System W
  begin start i (some finished) s = record s { threads = set s.threads i start }
  begin start i (some (failed e)) s = record s { threads = set s.threads i start }
  begin start i _ s = s

  -- A new pool, and `k` goroutines that have called nothing yet.
  unfoldable pub initial : ℕ → PoolConfig → W → ℕ → System W
  initial conn cfg w k = record {
    pool = new_channel_pool conn cfg;
    world = w;
    threads = replicate k finished;
  }

module _ {W : Type 0} (amqp : Amqp W) (opts : ChannelOptions W) where
  unfoldable pub advance : Turn → ℕ → Option Pc → System W → System W
  advance t i none s = s
  advance t i (some pc) s =
      let (pc', p', w') = step amqp opts t pc s.pool s.world in
      record { pool = p'; world = w'; threads = set s.threads i pc' }

  unfoldable pub happen : Event W → System W → System W
  unfolding advance begin
  happen (turn i t) s = advance t i (get_elem? s.threads i) s
  happen (acquires i) s = begin head i (get_elem? s.threads i) s
  happen (closes i) s = begin closing i (get_elem? s.threads i) s
  happen (outside f) s = record s { world = f s.world }

  unfoldable pub run : List (Event W) → System W → System W
  run [] s = s
  run (e ∷ es) s = run es (happen e s)
