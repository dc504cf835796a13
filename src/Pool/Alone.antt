-- ===== src/Pool/Alone.antt =====
-- pool.go, ChannelPool.Acquire where no other goroutine runs meanwhile: its steps, run one after the
-- other, come to an end and compute `acquire`.
use eamqp.Base.{
  ℕ, zero, suc, ◌+◌, ◌*◌, ◌≤◌, ◌≡◌, refl, ◌∙◌, Bool, true, false, not, Option, none, some, List, [],
  ◌∷◌, Error, Result, ok, err, pool_closed, channel_options, arith, length, if◌then◌else◌, inl, inr,
  Bool-cases,
}
use eamqp.Amqp.{Amqp, ChannelOptions}
use eamqp.Pool.{
  ChannelPool, Receive, blocked, item, add_one, receive, take_permit, drop_permit, acquire_permit,
  release_permit, is_usable, close_quietly, counted,
}
use eamqp.Pool.Steps.{
  Next, retry, give_up, resume, Pc, head, polling, checking, claiming, counting, opening, tallying,
  configuring, waiting, leased, failed, freeing, finished, Turn, step, open_result, configure,
  configure_result, claim, select, check,
}
use eamqp.Pool.Acquire.{
  interrupted, configured, configure_alone, opened, open_new, or_failed, found, acquire_from,
  acquire,
}

-- Acquire has returned, or waits in its second select.
abbrev is_settled : Pc → Bool
is_settled (leased c) = true
is_settled (failed e) = true
is_settled (waiting live) = true
is_settled finished = true
is_settled _ = false

module _ {W : Type 0} (amqp : Amqp W) (opts : ChannelOptions W) (t : Turn) where
  -- At most `fuel` steps, stopping where Acquire has settled.
  pub alone : ℕ → Pc → ChannelPool → W → Pc × ChannelPool × W
  alone zero pc p w = (pc, p, w)
  alone (suc fuel) pc p w =
      let (pc', p', w') = step amqp opts t pc p w in
      let rest = alone fuel pc' p' w' in if is_settled pc then (pc, p, w) else rest

  -- With `n` steps or more, the run from here ends in `r`.
  abbrev Yields : ℕ → Pc × ChannelPool × W → Pc × ChannelPool × W → Type 0
  Yields n s r = (f : ℕ) → n ≤ f → alone f s.0 s.1 s.2 ≡ r

  settled : (s : Pc × ChannelPool × W) → is_settled s.0 ≡ true → Yields 0 s s
  unfolding alone
  settled s h zero m = refl
  settled s h (suc f) m = rw h

  stepped :
      (s r : Pc × ChannelPool × W) (n : ℕ)
      → is_settled s.0 ≡ false
      → Yields n (step amqp opts t s.0 s.1 s.2) r
      → Yields (suc n) s r
  unfolding alone
  stepped s r n h y zero m = absurd (omega arith)
  stepped s r n h y (suc f) m = rw h (y f (omega arith))

  moved :
      (s u r : Pc × ChannelPool × W) (n : ℕ)
      → is_settled s.0 ≡ false
      → step amqp opts t s.0 s.1 s.2 ≡ u
      → Yields n u r
      → Yields (suc n) s r
  moved s u r n h e y = stepped s r n h (rw e y)

  longer : (s r : Pc × ChannelPool × W) (n m : ℕ) → n ≤ m → Yields n s r → Yields m s r
  longer s r n m h y f k = y f (omega arith)

  freed :
      (next : Next) (p : ChannelPool) (w : W) (n : ℕ) (r : Pc × ChannelPool × W)
      → Yields n (resume next, release_permit p, w) r
      → Yields (n + 3) (freeing next, p, w) r
  unfolding alone step release_permit
  freed next p w n r y (suc (suc (suc f))) m = ground (arith, y f, y (suc f))
  freed next p w n r y _ m = absurd (omega arith)

  gave_up :
      (e : Error) (p : ChannelPool) (w : W)
      → Yields 3 (freeing (give_up e), p, w) (failed e, release_permit p, w)
  gave_up e p w =
      longer _ _ (0 + 3) 3 (omega arith)
        (freed (give_up e) p w 0 _ (settled (failed e, release_permit p, w) refl))

  configured-Yields :
      (c : ℕ) (p : ChannelPool) (r : Option Error × W)
      → Yields 3 (configure_result amqp c r p) (configured amqp opts t c r p)
  unfolding configure_result configured
  configured-Yields c p (none, w) = longer _ _ 0 3 (omega arith) (settled (leased c, p, w) refl)
  configured-Yields c p (some e, w) = gave_up (channel_options e) p (close_quietly amqp (some c) w)

  configure-Yields :
      (o : ChannelOptions W) (c : ℕ) (p : ChannelPool) (w : W)
      → Yields 3 (configure amqp o c p w) (configure_alone amqp opts t o c p w)
  unfolding configure configure_alone
  configure-Yields none c p w = longer _ _ 0 3 (omega arith) (settled (leased c, p, w) refl)
  configure-Yields (some f) c p w = configured-Yields c p (f c w)

  opened-Yields :
      (p : ChannelPool) (r : Result ℕ × W)
      → Yields 5 (open_result amqp r p) (opened amqp opts t r p)
  unfolding open_result opened step
  opened-Yields p (err e, w) = longer _ _ 3 5 (omega arith) (gave_up e p w)
  opened-Yields p (ok c, w) =
      let q = record p { acquired = add_one p.acquired; created = add_one p.created } in
      stepped (tallying c, p, w) _ 4 refl
        (stepped (configuring c, q, w) _ 3 refl (configure-Yields opts c q w))

  opening-Yields :
      (q : ChannelPool) (w : W)
      → Yields 6 (opening, q, w) (opened amqp opts t (amqp.open_channel q.conn w) q)
  unfolding step
  opening-Yields q w =
      stepped (opening, q, w) _ 5 refl (opened-Yields q (amqp.open_channel q.conn w))

  claimed-Yields :
      (p : ChannelPool) (w : W) (o : Option ChannelPool)
      → let (pc, q) = claim o true p in Yields 7 (pc, q, w) (open_new amqp opts t (counted o) p w)
  unfolding open_new step claim counted
  claimed-Yields p w none = longer _ _ 0 7 (omega arith) (settled (waiting true, p, w) refl)
  claimed-Yields p w (some q) =
      stepped (counting, q, w) _ 6 refl (opening-Yields (record q { active = add_one q.active }) w)

  claiming-Yields :
      (p : ChannelPool) (w : W)
      → Yields 8 (claiming true, p, w) (open_new amqp opts t (acquire_permit p) p w)
  unfolding acquire_permit step
  claiming-Yields p w =
      stepped (claiming true, p, w) _ 7 refl (claimed-Yields p w (take_permit p.limit p))

  -- A pool in use: not closed, and its idle channel there and open.
  abbrev pub IsOpen : ChannelPool → Type 0
  IsOpen p = (p.closed ≡ false) × (p.has_channels ≡ true) × (p.idle_closed ≡ false)

  release_permit-IsOpen :
      (p : ChannelPool) (l : List (Option ℕ))
      → IsOpen p
      → IsOpen (release_permit (record p { idle = l }))
        × ((release_permit (record p { idle = l })).idle ≡ l)
  unfolding release_permit drop_permit
  release_permit-IsOpen p l h = ground arith

  empty-Yields :
      (c : Option Error) (b : Bool) (p : ChannelPool) (w : W) (n : ℕ) (r : Pc × ChannelPool × W)
      → Yields n (claiming true, p, w) r
      → let (pc, q) = select c b blocked (claiming true) p in
        Yields n (pc, q, w) (or_failed amqp opts t c p w r)
  unfolding select or_failed
  empty-Yields none b p w n r y = y
  empty-Yields (some e) b p w n r y = longer _ _ 0 n (omega arith) (settled (failed e, p, w) refl)

  item-Yields :
      (c : Option Error) (b : Bool) (ch : Option ℕ) (rest : List (Option ℕ)) (p : ChannelPool)
      (w : W) (n : ℕ) (r : Pc × ChannelPool × W)
      → Yields n (checking ch, record p { idle = rest }, w) r
      → let (pc, q) = select c b (item ch rest) (claiming true) p in
        Yields n (pc, q, w) (or_failed amqp opts t (interrupted c b) p w r)
  unfolding select or_failed interrupted
  item-Yields none b ch rest p w n r y = y
  item-Yields (some e) true ch rest p w n r y =
      longer _ _ 0 n (omega arith) (settled (failed e, p, w) refl)
  item-Yields (some e) false ch rest p w n r y = y

  check-Yields :
      (ch : Option ℕ) (b : Bool) (q : ChannelPool) (w : W) (n : ℕ) (r : Pc × ChannelPool × W)
      → Yields n (head, release_permit q, w) r
      → Yields (n + 3) (check amqp ch b q w) (found amqp opts t ch b q w r)
  unfolding check found
  check-Yields (some c) true q w n r y =
      longer _ _ 0 (n + 3) (omega arith)
        (settled (leased c, record q { acquired = add_one q.acquired }, w) refl)
  check-Yields (some c) false q w n r y = freed retry q w n r y
  check-Yields none b q w n r y = freed retry q w n r y

  checking-Yields :
      (ch : Option ℕ) (q : ChannelPool) (w : W) (n : ℕ) (r : Pc × ChannelPool × W)
      → Yields n (head, release_permit q, w) r
      → Yields (suc (n + 3)) (checking ch, q, w) (found amqp opts t ch (is_usable amqp ch w) q w r)
  unfolding step
  checking-Yields ch q w n r y =
      stepped (checking ch, q, w) _ (n + 3) refl (check-Yields ch (is_usable amqp ch w) q w n r y)

  head-Yields :
      (p : ChannelPool) (w : W) (n : ℕ) (rc : Receive) (r : Pc × ChannelPool × W)
      → IsOpen p
      → receive true p ≡ rc
      → (let (pc, q) = select t.ctx t.prefer_ctx rc (claiming true) p in Yields n (pc, q, w) r)
      → Yields (n + 2) (head, p, w) r
  unfolding step
  head-Yields p w n rc r h e y = longer _ _ (suc (suc n)) (n + 2) (omega arith) (
      moved (head, p, w) (polling true, p, w) r (suc n) refl (ground arith)
        (moved (polling true, p, w) _ r n refl (ground arith) y))

  acquire_from-Yields :
      (l : List (Option ℕ)) (p : ChannelPool) (w : W)
      → p.idle ≡ l
      → IsOpen p
      → Yields (6 * length l + 10) (head, p, w) (acquire_from amqp opts t l p w)
  unfolding acquire_from receive
  acquire_from-Yields [] p w e h =
      head-Yields p w 8 blocked _ h (ground arith)
        (empty-Yields t.ctx t.prefer_ctx p w 8 _ (claiming-Yields p w))
  acquire_from-Yields (ch ∷ rest) p w e h =
      let q = record p { idle = rest } in
      let kept = release_permit-IsOpen p rest h in
      let n : ℕ = 6 * length rest + 10 in
      longer _ _ (suc (n + 3) + 2) (6 * length (ch ∷ rest) + 10) (omega arith) (
        head-Yields p w (suc (n + 3)) (item ch rest) _ h (ground arith) (
          item-Yields t.ctx t.prefer_ctx ch rest p w (suc (n + 3)) _ (
            checking-Yields ch q w n _
              (acquire_from-Yields rest (release_permit q) w kept.1 kept.0))))

  closed_head :
      (p : ChannelPool) (w : W) → p.closed ≡ true → Yields 1 (head, p, w) (acquire amqp opts t p w)
  unfolding step acquire
  closed_head p w c =
      moved (head, p, w) (failed pool_closed, p, w) _ 0 refl (ground arith)
        (λ f m. settled (failed pool_closed, p, w) refl f m ∙ ground arith)

  open_acquire :
      (p : ChannelPool) (w : W)
      → p.closed ≡ false
      → acquire_from amqp opts t p.idle p w ≡ acquire amqp opts t p w
  unfolding acquire
  open_acquire p w o = ground arith

  -- Left to itself, Acquire's loop ends: from any pool that is open or closed, with no other goroutine
  -- interfering, at most six steps for each idle channel and ten more take it to where it returns or
  -- blocks, and the result is that of `acquire`: the first usable idle channel in the order of the
  -- buffer, with a permit given back for each dead channel before it; else a new channel, if a permit
  -- is free; else it blocks.
  pub acquire-alone :
      (p : ChannelPool) (w : W) (f : ℕ)
      → p.has_channels ≡ not p.closed
      → p.idle_closed ≡ p.closed
      → 6 * length p.idle + 10 ≤ f
      → alone f head p w ≡ acquire amqp opts t p w
  unfolding acquire
  acquire-alone p w f h i n = elim (Bool-cases p.closed) [
    | inl c ↦ closed_head p w c f (omega arith)
    | inr o ↦ acquire_from-Yields p.idle p w refl (ground arith) f n ∙ open_acquire p w o
  ]
