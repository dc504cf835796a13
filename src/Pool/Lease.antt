-- ===== src/Pool/Lease.antt =====
-- pool.go, ChannelPool: a lease from Acquire to its release or discard, without other goroutines.
use eamqp.Base.{
  ℕ, suc, ◌+◌, ◌^◌, ◌≤◌, ◌<◌, ◌≡◌, refl, ap, Bool, true, false, Option, none, some, List, [], ◌∷◌,
  Error, Result, ok, err, arith, length, length-append, ltb, ltb→lt, Bool-cases, ◌==◌, ◌-◌, inl,
  inr,
}
use eamqp.Amqp.{Amqp, ChannelOptions}
use eamqp.Pool.{
  ChannelPool, add_one, sub_one, acquire_permit, take_permit, counted, release_permit, drop_permit,
  is_nonpositive, is_usable, has_room,
}
use eamqp.Pool.Steps.{Pc, leased, Turn}
use eamqp.Pool.Acquire.{
  acquire, acquire_from, open_new, opened, configure_alone, configured, or_failed, found,
  interrupted,
}
use eamqp.Pool.Release.{release_now, discard_now}

-- `k` of the pool's channels are leased: each has its permit, as each idle one has, and `active` counts
-- the permits; there are at most `n`.
pub record Stocked (n k : ℕ) (p : ChannelPool) : Type 0 where
  pub limited : p.limit ≡ some n
  pub permits : p.tokens ≡ length p.idle + k
  pub tallied : p.active ≡ p.tokens
  pub bounded : p.tokens ≤ n

is_nonpositive-small : (a : ℕ) → 0 < a → a < 2 ^ 63 → is_nonpositive a ≡ false
is_nonpositive-small a l u = ground arith

sub_one-small : (a : ℕ) → 0 < a → a < 2 ^ 63 → sub_one a ≡ a - 1
sub_one-small a l u = omega arith

add_one-small : (a : ℕ) → a < 2 ^ 63 → add_one a ≡ a + 1
add_one-small a u = omega arith

drop_permit-some :
    (o : Option ℕ) (n : ℕ) (p : ChannelPool)
    → o ≡ some n
    → (p.tokens == 0) ≡ false
    → drop_permit o p ≡ record p { tokens = p.tokens - 1 }
unfolding drop_permit
drop_permit-some none n p e t = ground arith
drop_permit-some (some m) n p e t = simp t refl

release_permit-eq :
    (n : ℕ) (p : ChannelPool)
    → p.limit ≡ some n
    → (p.tokens == 0) ≡ false
    → is_nonpositive p.active ≡ false
    → release_permit p ≡ record p { tokens = p.tokens - 1; active = sub_one p.active }
unfolding release_permit
release_permit-eq n p l t a = rw (drop_permit-some p.limit n p l t) (simp a refl)

release_permit-idle : (p : ChannelPool) → (release_permit p).idle ≡ p.idle
unfolding release_permit drop_permit
release_permit-idle p = ground arith

-- The channel that Acquire has leased.
abbrev pub lease_of : Pc → Option ℕ
lease_of (leased c) = some c
lease_of _ = none

module _ (n : ℕ) (small : n < 2 ^ 63) where
  release_permit-Stocked :
      (k : ℕ) (p : ChannelPool) → Stocked n (suc k) p → Stocked n k (release_permit p)
  release_permit-Stocked k p s =
      let some_left : 0 < p.tokens = omega (arith, s.permits) in
      let counted_some : 0 < p.active = omega (arith, s.tallied) in
      let below : p.active < 2 ^ 63 = omega (arith, s.tallied, s.bounded, small) in
      rw
        (release_permit-eq n p s.limited (ground arith)
          (is_nonpositive-small p.active counted_some below))
        (record {
          limited = s.limited;
          permits = omega (arith, s.permits);
          tallied = omega (arith, s.tallied, sub_one-small p.active counted_some below);
          bounded = omega (arith, s.bounded);
        })

  abbrev MaybeStocked : ℕ → Option ChannelPool → Type 0
  MaybeStocked k none = Unit {0}
  MaybeStocked k (some q) = Stocked n k q

  acquire_permit-Stocked :
      (k : ℕ) (p : ChannelPool) → Stocked n k p → MaybeStocked (suc k) (acquire_permit p)
  unfolding acquire_permit take_permit counted
  acquire_permit-Stocked k p s =
      let below : p.active < 2 ^ 63 = omega (arith, s.tallied, s.bounded, small) in
      rw s.limited (elim (Bool-cases (ltb p.tokens n)) [
        | inr full ↦ simp full tt
        | inl room ↦ simp room (record {
          limited = refl;
          permits = omega (arith, s.permits);
          tallied = omega (arith, s.tallied, add_one-small p.active below);
          bounded = omega (arith, ltb→lt p.tokens n room);
        })
      ])

  module _ {W : Type 0} (amqp : Amqp W) (opts : ChannelOptions W) (t : Turn) where
    abbrev Leasing : ℕ → Option ℕ → ChannelPool → Type 0
    Leasing k none q = Stocked n k q
    Leasing k (some c) q = Stocked n (suc k) q

    -- A lease is one more leased channel; an error, or a call that waits, is none.
    abbrev After : ℕ → Pc × ChannelPool × W → Type 0
    After k r = Leasing k (lease_of r.0) r.1

    configured-After :
        (k c : ℕ) (r : Option Error × W) (p : ChannelPool)
        → Stocked n (suc k) p
        → After k (configured amqp opts t c r p)
    unfolding configured
    configured-After k c (none, w) p s = s
    configured-After k c (some e, w) p s = release_permit-Stocked k p s

    configure_alone-After :
        (k : ℕ) (o : ChannelOptions W) (c : ℕ) (p : ChannelPool) (w : W)
        → Stocked n (suc k) p
        → After k (configure_alone amqp opts t o c p w)
    unfolding configure_alone
    configure_alone-After k none c p w s = s
    configure_alone-After k (some f) c p w s = configured-After k c (f c w) p s

    opened-After :
        (k : ℕ) (r : Result ℕ × W) (p : ChannelPool)
        → Stocked n (suc k) p
        → After k (opened amqp opts t r p)
    unfolding opened
    opened-After k (err e, w) p s = release_permit-Stocked k p s
    opened-After k (ok c, w) p s =
        configure_alone-After k opts c
          (record p { acquired = add_one p.acquired; created = add_one p.created }) w
          (record {
            limited = s.limited;
            permits = s.permits;
            tallied = s.tallied;
            bounded = s.bounded;
          })

    open_new-After :
        (k : ℕ) (o : Option ChannelPool) (p : ChannelPool) (w : W)
        → MaybeStocked (suc k) o
        → Stocked n k p
        → After k (open_new amqp opts t o p w)
    unfolding open_new
    open_new-After k none p w m s = s
    open_new-After k (some q) p w m s = opened-After k (amqp.open_channel q.conn w) q m

    or_failed-After :
        (k : ℕ) (e : Option Error) (p : ChannelPool) (w : W) (r : Pc × ChannelPool × W)
        → Stocked n k p
        → After k r
        → After k (or_failed amqp opts t e p w r)
    unfolding or_failed
    or_failed-After k none p w r s h = h
    or_failed-After k (some e) p w r s h = s

    found-After :
        (k : ℕ) (ch : Option ℕ) (b : Bool) (q : ChannelPool) (w : W) (later : Pc × ChannelPool × W)
        → Stocked n (suc k) q
        → After k later
        → After k (found amqp opts t ch b q w later)
    unfolding found
    found-After k none b q w later s h = h
    found-After k (some c) false q w later s h = h
    found-After k (some c) true q w later s h = record {
      limited = s.limited;
      permits = s.permits;
      tallied = s.tallied;
      bounded = s.bounded;
    }

    acquire_from-After :
        (l : List (Option ℕ)) (k : ℕ) (p : ChannelPool) (w : W)
        → p.idle ≡ l
        → Stocked n k p
        → After k (acquire_from amqp opts t l p w)
    unfolding acquire_from
    acquire_from-After [] k p w e s =
        or_failed-After k t.ctx p w _ s
          (open_new-After k (acquire_permit p) p w (acquire_permit-Stocked k p s) s)
    acquire_from-After (ch ∷ rest) k p w e s =
        let q = record p { idle = rest } in
        let taken : Stocked n (suc k) q = record {
          limited = s.limited;
          permits = omega (arith, s.permits, ap length e);
          tallied = s.tallied;
          bounded = s.bounded;
        } in
        or_failed-After k (interrupted t.ctx t.prefer_ctx) p w _ s (
          found-After k ch (is_usable amqp ch w) q w _ taken (
            acquire_from-After rest k (release_permit q) w (release_permit-idle q)
              (release_permit-Stocked k q taken)))

    release_now-Stocked :
        (k : ℕ) (ch : Option ℕ) (p : ChannelPool) (w : W)
        → Stocked n (suc k) p
        → Stocked n k (release_now amqp ch p w).0
    unfolding release_now
    release_now-Stocked k ch p w s =
        let freed = release_permit-Stocked k p s in
        elim (Bool-cases p.closed) [
          | inl shut ↦ simp shut freed
          | inr live ↦ elim (Bool-cases (is_usable amqp ch w)) [
            | inr dead ↦ simp (live, dead) freed
            | inl alive ↦ elim (Bool-cases (has_room p)) [
              | inr full ↦ simp (live, alive, full) freed
              | inl room ↦
                  simp (live, alive, room)
                    (record {
                      limited = s.limited;
                      permits = omega (arith, s.permits, length-append p.idle (ch ∷ []));
                      tallied = s.tallied;
                      bounded = s.bounded;
                    })
            ]
          ]
        ]

    abbrev pub GivesBack : ℕ → Option ℕ → ChannelPool → Type 0
    GivesBack k none q = Stocked n k q
    GivesBack k (some c) q =
        (u : W)
        → Stocked n k (release_now amqp (some c) q u).0
          × Stocked n k (discard_now amqp (some c) q u).0

    -- A lease can be given back either way, whatever has happened to the world meanwhile.
    abbrev pub IsBalanced : ℕ → Pc × ChannelPool × W → Type 0
    IsBalanced k r = GivesBack k (lease_of r.0) r.1

    Leasing-GivesBack : (k : ℕ) (o : Option ℕ) (q : ChannelPool) → Leasing k o q → GivesBack k o q
    unfolding discard_now
    Leasing-GivesBack k none q s = s
    Leasing-GivesBack k (some c) q s =
        λ u. (release_now-Stocked k (some c) q u s, release_permit-Stocked k q s)

    -- Acquire and then release, or discard, of what it has leased, is balanced: with k channels of the
    -- pool leased before, k are leased after, each leased and each idle channel has its permit, and the
    -- `active` counter is the number of permits; the same holds after an Acquire that leases nothing.
    -- (The pool's size is below 2^63. The channel may have died, and the idle buffer be full.)
    pub acquire-IsBalanced :
        (k : ℕ) (p : ChannelPool) (w : W) → Stocked n k p → IsBalanced k (acquire amqp opts t p w)
    unfolding acquire
    acquire-IsBalanced k p w s = elim (Bool-cases p.closed) [
      | inl shut ↦ simp shut s
      | inr live ↦ simp live (Leasing-GivesBack k _ _ (acquire_from-After p.idle k p w refl s))
    ]
