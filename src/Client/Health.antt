-- ===== src/Client/Health.antt =====
-- health.go: the health snapshot of a client.
use eamqp.Base.{
  ℕ, zero, suc, get_elem?, ◌-◌, ◌^◌, ◌≤◌, ◌<◌, ◌≡◌, refl, String, Bool, true, false, ◌&&◌, ◌==◌,
  Option, none, some, List, [], ◌∷◌, length, arith, if◌then◌else◌, ltb, Bool-cases, inl, inr,
}
use eamqp.Base.Int.{ℤ, pos, negsuc, ltb_ℤ, leb_ℤ, ◌≤ℤ◌}
use eamqp.Amqp.{Amqp, ChannelOptions}
use eamqp.Connections.{ConnectionPool, PoolStats, count_open, stats, len}
use eamqp.Client.{Client}

pub data HealthStatus : Type 0 where
  up degraded down closed : HealthStatus

pub record HealthInfo : Type 0 where
  pub status : HealthStatus
  pub reason : String
  pub connections_active : ℕ
  pub connections_total : ℤ

-- The integer that a 64-bit pattern stands for.
abbrev pub of_int64 : ℕ → ℤ
of_int64 n = if ltb n (2 ^ 63) then pos n else negsuc (2 ^ 64 - n - 1)

-- poolConnectionTotal: at least the number of slots.
unfoldable pub pool_connection_total : PoolStats → ConnectionPool → ℤ
unfolding len
pool_connection_total st p =
    let total = of_int64 st.connections_total in
    if ltb_ℤ total (pos (len p)) then pos (len p) else total

module _ {W : Type 0} (amqp : Amqp W) (opts : ChannelOptions W) where
  unfoldable pub pool_health_status : ConnectionPool → W → HealthInfo
  unfolding pool_connection_total
  pool_health_status p w =
      let st = stats amqp opts p w in
      let active = st.connections_active in
      let total = pool_connection_total st p in
      if p.closed
      then record {
        status = closed;
        reason = "connection pool is closed";
        connections_active = active;
        connections_total = total;
      }
      else if leb_ℤ total (pos 0) && leb_ℤ (pos 0) total
      then record {
        status = down;
        reason = "no connection available";
        connections_active = 0;
        connections_total = pos 0;
      }
      else if active == 0
      then record {
        status = down;
        reason = "no active connections";
        connections_active = active;
        connections_total = total;
      }
      else if ltb_ℤ (pos active) total
      then record {
        status = degraded;
        reason = "some connections are unavailable";
        connections_active = active;
        connections_total = total;
      }
      else record {
        status = up;
        reason = "";
        connections_active = active;
        connections_total = total;
      }

  single_health_status : ℕ → W → HealthInfo
  single_health_status d w =
      if amqp.connection_is_closed d w
      then record {
        status = down;
        reason = "connection is closed";
        connections_active = 0;
        connections_total = pos 1;
      }
      else record { status = up; reason = ""; connections_active = 1; connections_total = pos 1 }

  health_of : Option ℕ → Option ConnectionPool → W → HealthInfo
  unfolding single_health_status pool_health_status
  health_of (some d) p w = single_health_status d w
  health_of none (some p) w = pool_health_status p w
  health_of none none w = record {
    status = down;
    reason = "no connection available";
    connections_active = 0;
    connections_total = pos 0;
  }

  -- HealthStatus of a client that is not nil.
  unfoldable pub health_status : Client → W → HealthInfo
  unfolding health_of
  health_status c w =
      if c.closed
      then record {
        status = closed;
        reason = "client is closed";
        connections_active = 0;
        connections_total = pos 0;
      }
      else health_of c.conn c.pool w

  abbrev pub is_serving : HealthStatus → Bool
  is_serving up = true
  is_serving degraded = true
  is_serving down = false
  is_serving closed = false

  unfoldable pub health : Client → W → Bool
  unfolding health_status
  health c w = is_serving (health_status c w).status

  -- One of the slots has a connection that is open.
  abbrev pub HasOpen : W → List (Option ℕ) → Type 0
  HasOpen w cs =
      (i : ℕ) × (d : ℕ) × (get_elem? cs i ≡ some (some d)) × (amqp.connection_is_closed d w ≡ false)

  -- The pool has a connection that is open, and is itself open.
  abbrev pub PoolServes : W → Option ConnectionPool → Type 0
  PoolServes w none = ⊥
  PoolServes w (some p) = (p.closed ≡ false) × HasOpen w p.connections

  -- The client is open, and its connection is, or one in its pool.
  abbrev pub Serves : W → Option ℕ → Option ConnectionPool → Type 0
  Serves w (some d) p = amqp.connection_is_closed d w ≡ false
  Serves w none p = PoolServes w p

  count_open-le : (cs : List (Option ℕ)) (w : W) → count_open amqp opts cs w ≤ length cs
  unfolding count_open
  count_open-le [] w = omega arith
  count_open-le (none ∷ cs) w = omega (arith, count_open-le cs w)
  count_open-le (some c ∷ cs) w = ground (arith, count_open-le cs w)

  count_open-HasOpen : (cs : List (Option ℕ)) (w : W) → 0 < count_open amqp opts cs w → HasOpen w cs
  unfolding count_open
  count_open-HasOpen [] w h = absurd (omega arith)
  count_open-HasOpen (none ∷ cs) w h =
      let (i, d, at, live) = count_open-HasOpen cs w h in (suc i, d, at, live)
  count_open-HasOpen (some c ∷ cs) w h = elim (Bool-cases (amqp.connection_is_closed c w)) [
    | inr live ↦ (0, c, refl, live)
    | inl shut ↦
        let (i, d, at, live) = count_open-HasOpen cs w (ground arith) in (suc i, d, at, live)
  ]

  HasOpen-count_open :
      (cs : List (Option ℕ)) (w : W) (i d : ℕ)
      → get_elem? cs i ≡ some (some d)
      → amqp.connection_is_closed d w ≡ false
      → 0 < count_open amqp opts cs w
  unfolding count_open
  HasOpen-count_open [] w i d at live = ground arith
  HasOpen-count_open (none ∷ cs) w zero d at live = ground arith
  HasOpen-count_open (none ∷ cs) w (suc i) d at live = HasOpen-count_open cs w i d at live
  HasOpen-count_open (some c ∷ cs) w zero d at live =
      let same : c ≡ d = ground arith in ground arith
  HasOpen-count_open (some c ∷ cs) w (suc i) d at live =
      ground (arith, HasOpen-count_open cs w i d at live)

  stats-active :
      (p : ConnectionPool) (w : W)
      → (stats amqp opts p w).connections_active ≡ count_open amqp opts p.connections w
  unfolding stats
  stats-active p w = refl

  total-le :
      (st : PoolStats) (p : ConnectionPool)
      → pos (length p.connections) ≤ℤ pool_connection_total st p
  unfolding pool_connection_total len
  total-le st p = ground arith

  pool-serves :
      (p : ConnectionPool) (w : W)
      → is_serving (pool_health_status p w).status ≡ true
      → PoolServes w (some p)
  unfolding pool_health_status
  pool-serves p w h =
      let counted : (p.closed ≡ false) × (0 < count_open amqp opts p.connections w) =
        ground (arith, stats-active p w) in
      (counted.0, count_open-HasOpen p.connections w counted.1)

  serves-pool :
      (p : ConnectionPool) (w : W)
      → PoolServes w (some p)
      → is_serving (pool_health_status p w).status ≡ true
  unfolding pool_health_status
  serves-pool p w (o, has) =
      let (i, d, at, live) = has in
      let some_open = HasOpen-count_open p.connections w i d at live in
      ground
        (arith, stats-active p w, count_open-le p.connections w, total-le (stats amqp opts p w) p)

  health_of-Serves :
      (d : Option ℕ) (p : Option ConnectionPool) (w : W)
      → (is_serving (health_of d p w).status ≡ true → Serves w d p)
        × (Serves w d p → is_serving (health_of d p w).status ≡ true)
  unfolding health_of
  health_of-Serves (some d) p w = (λ h. ground arith, λ h. ground arith)
  health_of-Serves none (some p) w = (pool-serves p w, serves-pool p w)
  health_of-Serves none none w = (λ h. ground arith, λ h. absurd h)

  -- Health is true exactly if the client has not been closed and has an open connection: its single
  -- connection is open, or its connection pool has not been closed and one of the pool's connections
  -- is open.
  pub health-Serves :
      (c : Client) (w : W)
      → (health c w ≡ true → (c.closed ≡ false) × Serves w c.conn c.pool)
        × ((c.closed ≡ false) × Serves w c.conn c.pool → health c w ≡ true)
  unfolding health
  health-Serves c w =
      let both = health_of-Serves c.conn c.pool w in
      elim (Bool-cases c.closed) [
        | inl shut ↦ (λ h. ground arith, λ h. ground arith)
        | inr live ↦ (λ h. (live, both.0 (ground arith)), λ h. simp live (both.1 h.1))
      ]
