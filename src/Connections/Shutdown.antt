-- ===== src/Connections/Shutdown.antt =====
-- pool.go, ConnectionPool.Close, with no other goroutine interfering.
use eamqp.Base.{
  ◌≡◌, refl, true, false, not, Option, none, some, List, [], ◌∷◌, Error, if◌then◌else◌, ℕ, All,
  get_elem?, ◌⊎◌, inl, inr,
}
use eamqp.Amqp.{Amqp}
use eamqp.Pool.{ChannelPool}
use eamqp.Pool.Close.{
  close as close_channel_pool, close-closed, close-keeps, close-shuts, ChannelIsShut,
}
use eamqp.Connections.{ConnectionPool}
use eamqp.Connections.Slots.{Closing, ClosingChannels, IsShut, shut_at}

abbrev later_error : Option Error → Option Error → Option Error
later_error last none = last
later_error last (some e) = some e

module _ {W : Type 0} (amqp : Amqp W) where
  close_pools : List (Option ChannelPool) → W → List (Option ChannelPool) × W
  close_pools [] w = ([], w)
  close_pools (none ∷ ps) w = let (rest, w') = close_pools ps w in (none ∷ rest, w')
  close_pools (some p ∷ ps) w =
      let (q, w₁) = close_channel_pool amqp p w in
      let (rest, w₂) = close_pools ps w₁ in (some q ∷ rest, w₂)

  -- `lastErr` is the error of the last connection whose Close failed.
  close_connections : List (Option ℕ) → Option Error → W → Option Error × W
  close_connections [] last w = (last, w)
  close_connections (none ∷ cs) last w = close_connections cs last w
  close_connections (some c ∷ cs) last w =
      let (e, w') = amqp.close_connection c w in close_connections cs (later_error last e) w'

  unfoldable pub close : ConnectionPool → W → Option Error × ConnectionPool × W
  unfolding close_pools close_connections
  close p w =
      let (pools, w₁) = close_pools p.channel_pools w in
      let (last, w₂) = close_connections p.connections none w₁ in
      if p.closed
      then (none, p, w)
      else (last, record p { closed = true; channel_pools = pools }, w₂)

  -- A channel pool as it is between two calls: its idle channel is there until Close.
  abbrev pub IsSound : Option ChannelPool → Type 0
  IsSound none = Unit {0}
  IsSound (some p) = (p.has_channels ≡ not p.closed) × (p.closed ≡ true → p.idle ≡ [])

  -- The pools before and after: each is closed and has nothing idle, and what it had idle is closed.
  abbrev pub AreEmptied : W → List (Option ChannelPool) → List (Option ChannelPool) → Type 0
  AreEmptied w [] [] = Unit {0}
  AreEmptied w (none ∷ ps) (none ∷ qs) = AreEmptied w ps qs
  AreEmptied w (some p ∷ ps) (some q ∷ qs) =
      ((q.closed ≡ true) × (q.idle ≡ []) × All (ChannelIsShut amqp w) p.idle) × AreEmptied w ps qs
  AreEmptied w _ _ = ⊥

  All-ChannelIsShut :
      (w w' : W) (l : List (Option ℕ))
      → ((d : ℕ) → amqp.channel_is_closed d w ≡ true → amqp.channel_is_closed d w' ≡ true)
      → All (ChannelIsShut amqp w) l
      → All (ChannelIsShut amqp w') l
  All-ChannelIsShut w w' [] k a = tt
  All-ChannelIsShut w w' (none ∷ l) k a = (tt, All-ChannelIsShut w w' l k a.1)
  All-ChannelIsShut w w' (some c ∷ l) k a = (k c a.0, All-ChannelIsShut w w' l k a.1)

  AreEmptied-later :
      (w w' : W) (ps qs : List (Option ChannelPool))
      → ((d : ℕ) → amqp.channel_is_closed d w ≡ true → amqp.channel_is_closed d w' ≡ true)
      → AreEmptied w ps qs
      → AreEmptied w' ps qs
  AreEmptied-later w w' [] [] k a = tt
  AreEmptied-later w w' (none ∷ ps) (none ∷ qs) k a = AreEmptied-later w w' ps qs k a
  AreEmptied-later w w' (some p ∷ ps) (some q ∷ qs) k a =
      ((a.0.0, a.0.1, All-ChannelIsShut w w' p.idle k a.0.2), AreEmptied-later w w' ps qs k a.1)
  AreEmptied-later w w' [] (q ∷ qs) k a = absurd a
  AreEmptied-later w w' (none ∷ ps) [] k a = absurd a
  AreEmptied-later w w' (some p ∷ ps) [] k a = absurd a
  AreEmptied-later w w' (none ∷ ps) (some q ∷ qs) k a = absurd a
  AreEmptied-later w w' (some p ∷ ps) (none ∷ qs) k a = absurd a

  close_pools-keeps {ℓ} :
      (P : W → Type ℓ)
      → ((c : ℕ) (w : W) → P w → P (amqp.close_channel c w).1)
      → (ps : List (Option ChannelPool)) (w : W) → P w
      → P (close_pools ps w).1
  unfolding close_pools
  close_pools-keeps P k [] w h = h
  close_pools-keeps P k (none ∷ ps) w h = close_pools-keeps P k ps w h
  close_pools-keeps P k (some p ∷ ps) w h =
      close_pools-keeps P k ps (close_channel_pool amqp p w).1 (close-keeps amqp P k p w h)

  close_connections-keeps {ℓ} :
      (P : W → Type ℓ)
      → ((c : ℕ) (w : W) → P w → P (amqp.close_connection c w).1)
      → (cs : List (Option ℕ)) (last : Option Error) (w : W) → P w
      → P (close_connections cs last w).1
  unfolding close_connections
  close_connections-keeps P k [] last w h = h
  close_connections-keeps P k (none ∷ cs) last w h = close_connections-keeps P k cs last w h
  close_connections-keeps P k (some c ∷ cs) last w h =
      close_connections-keeps P k cs _ (amqp.close_connection c w).1 (k c w h)

  close_pools-AreEmptied :
      (below : ClosingChannels amqp) (ps : List (Option ChannelPool)) (w : W)
      → All IsSound ps
      → AreEmptied (close_pools ps w).1 ps (close_pools ps w).0
  unfolding close_pools
  close_pools-AreEmptied below [] w h = tt
  close_pools-AreEmptied below (none ∷ ps) w h = close_pools-AreEmptied below ps w h.1
  close_pools-AreEmptied below (some p ∷ ps) w h =
      let w₁ = (close_channel_pool amqp p w).1 in
      let c = close-closed amqp p w h.0.0 h.0.1 in
      let shut = close-shuts amqp below p w h.0.0 h.0.1 in
      let later =
        All-ChannelIsShut w₁ (close_pools ps w₁).1 p.idle
          (λ d.
            close_pools-keeps (λ v. amqp.channel_is_closed d v ≡ true)
              (λ x v s. below.stays_closed x d v s) ps w₁)
          shut in
      ((c.0, c.1, later), close_pools-AreEmptied below ps w₁ h.1)

  module _ (laws : Closing amqp) where
    close_connections-stays :
        (cs : List (Option ℕ)) (last : Option Error) (w : W) (d : ℕ)
        → amqp.connection_is_closed d w ≡ true
        → amqp.connection_is_closed d (close_connections cs last w).1 ≡ true
    close_connections-stays cs last w d =
        close_connections-keeps (λ v. amqp.connection_is_closed d v ≡ true)
          (λ c v h. laws.stays c d v h) cs last w

    close_connections-IsShut :
        (cs : List (Option ℕ)) (last : Option Error) (w : W)
        → All (IsShut amqp (close_connections cs last w).1) cs
    unfolding close_connections
    close_connections-IsShut [] last w = tt
    close_connections-IsShut (none ∷ cs) last w = (tt, close_connections-IsShut cs last w)
    close_connections-IsShut (some c ∷ cs) last w =
        let w' = (amqp.close_connection c w).1 in
        let last' = later_error last (amqp.close_connection c w).0 in
        (
          close_connections-stays cs last' w' c (laws.closes c w),
          close_connections-IsShut cs last' w',
        )

    -- A connection that is closed, or in one of the slots, is closed.
    pub close-covers :
        (below : ClosingChannels amqp) (p : ConnectionPool) (w : W) (d : ℕ)
        → p.closed ≡ false
        → (amqp.connection_is_closed d w ≡ true)
          ⊎ ((j : ℕ) × (get_elem? p.connections j ≡ some (some d)))
        → amqp.connection_is_closed d (close p w).2 ≡ true
    unfolding close
    close-covers below p w d o (inl h) =
        let w₁ = (close_pools p.channel_pools w).1 in
        let kept =
          close_pools-keeps (λ v. amqp.connection_is_closed d v ≡ true)
            (λ c v s. below.stays_down c d v s) p.channel_pools w h in
        simp o (close_connections-stays p.connections none w₁ d kept)
    close-covers below p w d o (inr (j, at)) =
        let w₁ = (close_pools p.channel_pools w).1 in
        let all = close_connections-IsShut p.connections none w₁ in
        simp o (shut_at amqp p.connections j d (close_connections p.connections none w₁).1 all at)

    -- Close on a connection pool in use closes every connection that it has and every channel pool:
    -- each idle channel is closed, and none is idle any more. A second Close returns nil and changes
    -- nothing.
    pub close_shuts :
        (below : ClosingChannels amqp) (p : ConnectionPool) (w : W)
        → p.closed ≡ false
        → All IsSound p.channel_pools
        → let (e, q, w') = close p w in
          (q.closed ≡ true)
          × All (IsShut amqp w') p.connections
          × AreEmptied w' p.channel_pools q.channel_pools
          × (close q w' ≡ (none, q, w'))
    unfolding close
    close_shuts below p w h s =
        let (pools, w₁) = close_pools p.channel_pools w in
        let conns = close_connections-IsShut p.connections none w₁ in
        let emptied =
          AreEmptied-later w₁ (close_connections p.connections none w₁).1 p.channel_pools pools
            (λ d.
              close_connections-keeps (λ v. amqp.channel_is_closed d v ≡ true)
                (λ c v k. below.stays_closed_below c d v k) p.connections none w₁)
            (close_pools-AreEmptied below p.channel_pools w s) in
        rw h (refl, conns, emptied, refl)
