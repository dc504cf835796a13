-- ===== src/Connections/Dial.antt =====
-- pool.go, ConnectionPool.dialAll. `dial` is the method of that name, a parameter here.
use eamqp.Base.{
  ℕ, zero, suc, Option, none, some, List, [], ◌∷◌, Error, Result, Outcome, ok, err, returns, panics,
  connect_failed, length, set, take, ltb, if◌then◌else◌,
}
use eamqp.Amqp.{Amqp}
use eamqp.Pool.{PoolConfig, new_channel_pool, add_one}
use eamqp.Connections.{ConnectionPool}

module _ {W : Type 0} (amqp : Amqp W) where
  -- for j := 0; j < i; j++ { p.connections[j].Close() }
  unfoldable pub close_first : ℕ → List (Option ℕ) → W → Outcome W
  close_first zero cs w = returns w
  close_first (suc i) [] w = panics
  close_first (suc i) (none ∷ cs) w = panics
  close_first (suc i) (some c ∷ cs) w = close_first i cs (amqp.close_connection c w).1

  abbrev pub give_up :
      Error → ConnectionPool → Outcome W → W → Outcome (Option Error) × ConnectionPool × W
  give_up e p (returns w') w = (returns (some (connect_failed e)), p, w')
  give_up e p panics w = (panics, p, w)

  module _ {U : Type 0} (dial : U → W → Result ℕ × W) (cfg : PoolConfig) where
    -- The slot `i` gets its connection and a new channel pool.
    abbrev pub fill : ℕ → ℕ → ConnectionPool → ConnectionPool
    fill i c p = record p {
      connections = set p.connections i (some c);
      channel_pools = set p.channel_pools i (some (new_channel_pool c cfg));
      total = add_one p.total;
    }

    unfoldable pub dial_loop :
        List U → ℕ → ConnectionPool → W → Outcome (Option Error) × ConnectionPool × W
    dial_loop [] i p w = (returns none, p, w)
    dial_loop (u ∷ us) i p w =
        let w' = (dial u w).1 in
        elim (dial u w).0 [
          | err e ↦ give_up e p (close_first i p.connections w') w'
          | ok c ↦ dial_loop us (suc i) (fill i c p) w'
        ]

    -- The slice p.uris[:len(p.connections)] panics where there are fewer URIs than slots.
    unfoldable pub dial_all :
        List U → ConnectionPool → W → Outcome (Option Error) × ConnectionPool × W
    unfolding dial_loop close_first
    dial_all uris p w =
        let n = length p.connections in
        if ltb (length uris) n then (panics, p, w) else dial_loop (take n uris) 0 p w
