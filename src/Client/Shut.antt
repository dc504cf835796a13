-- ===== src/Client/Shut.antt =====
-- client.go, Client.Close, and what a closed client does.
use eamqp.Base.{
  ◌≡◌, refl, ℕ, true, false, Option, none, some, List, Result, returns, client_closed, All, Error,
  ping_canceled,
}
use eamqp.Amqp.{Amqp, ChannelOptions}
use eamqp.Amqp.Raw.{Metric}
use eamqp.Pool.Steps.{Turn}
use eamqp.Connections.{ConnectionPool}
use eamqp.Connections.Slots.{Closing, ClosingChannels, IsShut}
use eamqp.Connections.Shutdown.{IsSound, close_shuts}
use eamqp.Client.{
  Client, failed, close, close_single, close_pooled, new_channel, acquire_channel, reconnect,
}
use eamqp.Client.Health.{health}
use eamqp.Client.Ping.{ping}

module _ {W : Type 0} (amqp : Amqp W) (opts : ChannelOptions W)
    (record_metric : Metric → W → W) where
  -- Every call on the client is refused, Health is false, and nothing changes.
  pub record Refuses {U : Type 0} (dial pool_dial : U → W → Result ℕ × W) (c : Client) (w : W)
      : Type 0 where
    pub new_channel_refused :
        (t : Turn)
        → new_channel amqp opts record_metric t c w ≡ (returns (failed client_closed), c, w)
    pub acquire_channel_refused :
        (t : Turn)
        → acquire_channel amqp opts record_metric t c w ≡ (returns (failed client_closed), c, w)
    pub reconnect_refused :
        (uris : Result (List U))
        → reconnect amqp opts record_metric dial pool_dial uris c w
          ≡ (returns (some client_closed), c, w)
    pub ping_refused : ping amqp opts none c w ≡ (returns (some client_closed), c, w)
    pub ping_canceled_first :
        (e : Error) → ping amqp opts (some e) c w ≡ (returns (some (ping_canceled e)), c, w)
    pub unhealthy : health amqp opts c w ≡ false
    pub close_again : close amqp opts record_metric c w ≡ (none, c, w)

  closed-Refuses :
      {U : Type 0} (dial pool_dial : U → W → Result ℕ × W) (c : Client) (w : W)
      → c.closed ≡ true
      → Refuses dial pool_dial c w
  unfolding new_channel acquire_channel reconnect ping health close
  closed-Refuses dial pool_dial c w h = record {
    new_channel_refused = λ t. simp h refl;
    acquire_channel_refused = λ t. simp h refl;
    reconnect_refused = λ uris. simp h refl;
    ping_refused = simp h refl;
    ping_canceled_first = λ e. refl;
    unhealthy = simp h refl;
    close_again = simp h refl;
  }

  abbrev pub PoolIsShut : W → Option ConnectionPool → Type 0
  PoolIsShut w none = Unit {0}
  PoolIsShut w (some p) = All (IsShut amqp w) p.connections

  -- A client has a connection or a pool, never both; the pool is in use.
  abbrev pub HasOne : Option ℕ → Option ConnectionPool → Type 0
  HasOne (some d) (some p) = ⊥
  HasOne none (some p) = (p.closed ≡ false) × All (IsSound amqp) p.channel_pools
  HasOne d none = Unit {0}

  -- Recording a metric opens no connection again.
  abbrev pub KeepsShut : Type 0
  KeepsShut =
      (m : Metric) (d : ℕ) (w : W)
      → amqp.connection_is_closed d w ≡ true
      → amqp.connection_is_closed d (record_metric m w) ≡ true

  closed_both :
      (laws : Closing amqp) (below : ClosingChannels amqp) (keeps : KeepsShut) (d : Option ℕ)
      (p : Option ConnectionPool) (w : W)
      → HasOne d p
      → let (e₁, w₁) = close_single amqp opts record_metric d w in
        let (e₂, q, w₂) = close_pooled amqp opts record_metric p e₁ w₁ in
        IsShut amqp w₂ d × PoolIsShut w₂ p
  unfolding close_single close_pooled
  closed_both laws below keeps (some d) none w h = (keeps _ d _ (laws.closes d w), tt)
  closed_both laws below keeps none none w h = (tt, tt)
  closed_both laws below keeps none (some p) w h = (tt, (close_shuts amqp laws below p w h.0 h.1).1)
  closed_both laws below keeps (some d) (some p) w h = absurd h

  close-open :
      (c : Client) (w : W)
      → c.closed ≡ false
      → close amqp opts record_metric c w ≡ (
          let (e₁, w₁) = close_single amqp opts record_metric c.conn w in
          let (e₂, q, w₂) = close_pooled amqp opts record_metric c.pool e₁ w₁ in
          (e₂, record c { closed = true; pool = q }, w₂))
  unfolding close
  close-open c w h = simp h refl

  -- Close on a client in use closes every connection that it has. From then on NewChannel,
  -- AcquireChannel, Reconnect and Ping return "client is closed" and change nothing, but that Ping
  -- returns its context's error first, if that is done; Health is false, and Close again returns nil and
  -- changes nothing. (By amqp091-go's contract what is closed stays closed.)
  pub close-Refuses :
      {U : Type 0} (dial pool_dial : U → W → Result ℕ × W) (laws : Closing amqp)
      (below : ClosingChannels amqp) (keeps : KeepsShut) (c : Client) (w : W)
      → c.closed ≡ false
      → HasOne c.conn c.pool
      → let (e, c', w') = close amqp opts record_metric c w in
        Refuses dial pool_dial c' w' × IsShut amqp w' c.conn × PoolIsShut w' c.pool
  close-Refuses dial pool_dial laws below keeps c w h one =
      let down = closed_both laws below keeps c.conn c.pool w one in
      rw (close-open c w h) (closed-Refuses dial pool_dial _ _ refl, down.0, down.1)
