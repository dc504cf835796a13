-- ===== src/Channel/Accounts.antt =====
-- channel.go, Channel under concurrent use: what is counted of the goroutines and of the raw channel.
use eamqp.Base.{
  ℕ, zero, suc, ◌+◌, ◌<◌, ◌≡◌, Bool, true, false, Option, none, some, List, [], ◌∷◌, arith,
  get_elem?, set, sum_by, sum_by-set, sum_by-others, others, All,
}
use eamqp.Channel.{Channel, Disposal, released, discarded, closed}
use eamqp.Channel.Lifecycle.{Place, outside, inside, waiting, System}

abbrev pub in_method : {S : Type 0} → Place S → ℕ
in_method (inside c) = 1
in_method _ = 0

abbrev pub in_wait : {S : Type 0} → Place S → ℕ
in_wait (waiting k) = 1
in_wait _ = 0

abbrev pub count_disposals : List Disposal → ℕ
count_disposals [] = 0
count_disposals (d ∷ ds) = suc (count_disposals ds)

abbrev pub pointers : Option ℕ → ℕ
pointers none = 0
pointers (some c) = 1

-- Released only if no stateful method was let in, discarded only if one was.
abbrev pub Fits : Bool → Disposal → Type 0
Fits used released = used ≡ false
Fits used discarded = used ≡ true
Fits used closed = ⊥

module _ {S : Type 0} (r d : S → S) where
  -- A Close in its wait holds the callbacks, and knows of the stateful use.
  abbrev pub Knows : Bool → Place S → Type 0
  Knows used (waiting k) =
      (k.was_stateful ≡ used) × (k.on_release ≡ some r) × (k.on_discard ≡ some d)
  Knows used _ = Unit {0}

  -- The raw channel is in the wrapper, in one Close, or given up; `m` goroutines are in a method and
  -- `v` in Close's wait.
  pub record Books (ch : Channel S) (used : Bool) (m v : ℕ) (ds : List Disposal) : Type 0 where
    pub inflight_exact : ch.inflight ≡ m
    pub one_owner : pointers ch.amqp_ch + v + count_disposals ds ≡ 1
    pub given_up_idle : 0 < count_disposals ds → m ≡ 0
    pub marked : pointers ch.amqp_ch ≡ 1 → ch.stateful ≡ used
    pub release_kept : pointers ch.amqp_ch ≡ 1 → ch.release ≡ some r
    pub discard_kept : pointers ch.amqp_ch ≡ 1 → ch.discard ≡ some d
    pub fates : All (Fits used) ds

  pub record Inv (s : System S) : Type 0 where
    pub books :
        Books s.channel s.used (sum_by in_method s.places) (sum_by in_wait s.places) s.disposals
    pub informed : All (Knows s.used) s.places

  pub no_wait-Knows :
      (used : Bool) (ps : List (Place S)) → sum_by in_wait ps ≡ 0 → All (Knows used) ps
  no_wait-Knows used [] h = tt
  no_wait-Knows used (outside ∷ ps) h = (tt, no_wait-Knows used ps (omega arith))
  no_wait-Knows used (inside c ∷ ps) h = (tt, no_wait-Knows used ps (omega arith))
  no_wait-Knows used (waiting k ∷ ps) h = absurd (omega arith)

  pub Knows-set :
      (used : Bool) (ps : List (Place S)) (i : ℕ) (q : Place S)
      → All (Knows used) ps
      → Knows used q
      → All (Knows used) (set ps i q)
  Knows-set used [] i q h k = tt
  Knows-set used (x ∷ ps) zero q h k = (k, h.1)
  Knows-set used (x ∷ ps) (suc i) q h k = (h.0, Knows-set used ps i q h.1 k)

  pub Knows-at :
      (used : Bool) (ps : List (Place S)) (i : ℕ) (q : Place S)
      → get_elem? ps i ≡ some q
      → All (Knows used) ps
      → Knows used q
  Knows-at used [] i q e h = ground arith
  Knows-at used (x ∷ ps) zero q e h = ground arith
  Knows-at used (x ∷ ps) (suc i) q e h = Knows-at used ps i q e h.1

  pub no_disposals-Fits :
      (used : Bool) (ds : List Disposal) → count_disposals ds ≡ 0 → All (Fits used) ds
  no_disposals-Fits used [] h = tt
  no_disposals-Fits used (x ∷ ds) h = absurd (omega arith)

  -- A goroutine moves from `p` to `q`.
  pub move-Inv :
      (s : System S) (i : ℕ) (p q : Place S) (ch : Channel S) (w : S) (used : Bool)
      (ds : List Disposal)
      → get_elem? s.places i ≡ some p
      → Books ch used
          (in_method q + others in_method s.places i)
          (in_wait q + others in_wait s.places i)
          ds
      → All (Knows used) (set s.places i q)
      → Inv (record {
        channel = ch;
        world = w;
        places = set s.places i q;
        disposals = ds;
        used = used;
      })
  move-Inv s i p q ch w used ds e b k = record {
    books = rw (sum_by-set in_method s.places i p q e, sum_by-set in_wait s.places i p q e) b;
    informed = k;
  }

  pub Books-at :
      (s : System S) (i : ℕ) (p : Place S)
      → get_elem? s.places i ≡ some p
      → Inv s
      → Books s.channel s.used
          (in_method p + others in_method s.places i)
          (in_wait p + others in_wait s.places i)
          s.disposals
  Books-at s i p e v =
      rw (sum_by-others in_method s.places i p e, sum_by-others in_wait s.places i p e) at v.books
