-- ===== src/Pool/Close.antt =====
-- pool.go, ChannelPool.Close where no other goroutine runs meanwhile.
use eamqp.Base.{
  ℕ, ◌≡◌, refl, ◌∙◌, not, true, false, Option, none, some, List, [], ◌∷◌, arith, if◌then◌else◌,
  Bool-cases, inl, inr, All,
}
use eamqp.Amqp.{Amqp}
use eamqp.Connections.Slots.{ClosingChannels}
use eamqp.Pool.{ChannelPool, drop_permit, release_permit, close_quietly}

module _ {W : Type 0} (amqp : Amqp W) where
  -- The loop over what the closed Go channel still holds.
  unfoldable pub drain_all : List (Option ℕ) → ChannelPool → W → ChannelPool × W
  drain_all [] p w = (record p { idle = [] }, w)
  drain_all (none ∷ rest) p w = drain_all rest p w
  drain_all (some c ∷ rest) p w = drain_all rest (release_permit p) (close_quietly amqp (some c) w)

  unfoldable pub close : ChannelPool → W → ChannelPool × W
  unfolding drain_all
  close p w =
      let q = record p { closed = true } in
      let r = record q { idle_closed = true; has_channels = false } in
      if p.closed then (p, w) else if p.has_channels then drain_all p.idle r w else (q, w)

  release_permit-closed : (p : ChannelPool) → (release_permit p).closed ≡ p.closed
  unfolding release_permit drop_permit
  release_permit-closed p = ground arith

  drain_all-closed :
      (l : List (Option ℕ)) (p : ChannelPool) (w : W)
      → p.closed ≡ true
      → ((drain_all l p w).0.closed ≡ true) × ((drain_all l p w).0.idle ≡ [])
  unfolding drain_all
  drain_all-closed [] p w h = (h, refl)
  drain_all-closed (none ∷ rest) p w h = drain_all-closed rest p w h
  drain_all-closed (some c ∷ rest) p w h =
      drain_all-closed rest (release_permit p) _ (release_permit-closed p ∙ h)

  -- No channel, or one that is closed.
  abbrev pub ChannelIsShut : W → Option ℕ → Type 0
  ChannelIsShut w none = Unit {0}
  ChannelIsShut w (some c) = amqp.channel_is_closed c w ≡ true

  -- Whatever closing a channel keeps, draining keeps.
  pub drain_all-keeps {ℓ} :
      (P : W → Type ℓ)
      → ((c : ℕ) (w : W) → P w → P (amqp.close_channel c w).1)
      → (l : List (Option ℕ)) (p : ChannelPool) (w : W) → P w
      → P (drain_all l p w).1
  unfolding drain_all close_quietly
  drain_all-keeps P k [] p w h = h
  drain_all-keeps P k (none ∷ rest) p w h = drain_all-keeps P k rest p w h
  drain_all-keeps P k (some c ∷ rest) p w h =
      drain_all-keeps P k rest (release_permit p) _ (k c w h)

  pub close-keeps {ℓ} :
      (P : W → Type ℓ)
      → ((c : ℕ) (w : W) → P w → P (amqp.close_channel c w).1)
      → (p : ChannelPool) (w : W) → P w
      → P (close p w).1
  unfolding close
  close-keeps P k p w h =
      let r = record p { closed = true; idle_closed = true; has_channels = false } in
      let d = drain_all-keeps P k p.idle r w h in
      elim (Bool-cases p.closed) [
        | inl over ↦ simp over h
        | inr live ↦ elim (Bool-cases p.has_channels) [
          | inl there ↦ simp (live, there) d
          | inr gone ↦ simp (live, gone) h
        ]
      ]

  drain_all-shuts :
      ClosingChannels amqp
      → (l : List (Option ℕ)) (p : ChannelPool) (w : W) → All (ChannelIsShut (drain_all l p w).1) l
  unfolding drain_all close_quietly
  drain_all-shuts laws [] p w = tt
  drain_all-shuts laws (none ∷ rest) p w = (tt, drain_all-shuts laws rest p w)
  drain_all-shuts laws (some c ∷ rest) p w = (
    drain_all-keeps (λ v. amqp.channel_is_closed c v ≡ true) (λ d v h. laws.stays_closed d c v h)
        rest (release_permit p) _ (laws.closes_channel c w),
    drain_all-shuts laws rest (release_permit p) _,
  )

  -- The channels that a pool in use has idle are closed.
  pub close-shuts :
      ClosingChannels amqp
      → (p : ChannelPool) (w : W) → p.has_channels ≡ not p.closed
      → (p.closed ≡ true → p.idle ≡ [])
      → All (ChannelIsShut (close p w).1) p.idle
  unfolding close
  close-shuts laws p w h i =
      let r = record p { closed = true; idle_closed = true; has_channels = false } in
      let d = drain_all-shuts laws p.idle r w in
      elim (Bool-cases p.closed) [
        | inl over ↦ rw (i over) tt
        | inr live ↦ let there : p.has_channels ≡ true = ground arith in simp (live, there) d
      ]

  -- Closing a pool in use leaves it closed and with nothing idle; closing it again does nothing.
  pub close-closed :
      (p : ChannelPool) (w : W)
      → p.has_channels ≡ not p.closed
      → (p.closed ≡ true → p.idle ≡ [])
      → let (q, w') = close p w in (q.closed ≡ true) × (q.idle ≡ []) × (close q w' ≡ (q, w'))
  unfolding close
  close-closed p w h i =
      let d =
        drain_all-closed p.idle
          (record p { closed = true; idle_closed = true; has_channels = false }) w refl in
      ground (arith, d)
