-- ===== src/Pool/Books.antt =====
-- pool.go, ChannelPool under concurrent use: the books of a whole system, kept by every event.
use eamqp.Base.{
  ℕ, ◌+◌, ◌^◌, ◌≤◌, ◌<◌, ◌≡◌, refl, Option, none, some, List, [], ◌∷◌, arith, length, get_elem?,
  set, sum_by, sum_by-set, sum_by-others, others, others_mono, others-lt-length, length-set,
}
use eamqp.Amqp.{Amqp, ChannelOptions}
use eamqp.Pool.{ChannelPool}
use eamqp.Pool.Steps.{Pc, head, counting, failed, lowering, closing, finished, Turn}
use eamqp.Pool.Accounting.{held, uncounted, unlowered, drains, Balance, step-Balance}
use eamqp.Pool.Machine.{System, Event, turn, acquires, closes, outside, begin, advance, happen, run}

-- The books of the whole system, and that `active` is far from overflowing.
pub record Inv {W : Type 0} (n : ℕ) (s : System W) : Type 0 where
  pub books :
      Balance n
        (sum_by held s.threads)
        (sum_by uncounted s.threads)
        (sum_by unlowered s.threads)
        (sum_by drains s.threads)
        s.pool
  pub room : n + length s.threads < 2 ^ 63

held-ge : (pc : Pc) → uncounted pc ≤ held pc
held-ge counting = omega arith
held-ge pc = omega arith

unlowered-le : (pc : Pc) → unlowered pc ≤ 1
unlowered-le (lowering next) = omega arith
unlowered-le pc = omega arith

-- The books, written for one goroutine and the rest.
abbrev BooksAt : ℕ → List Pc → ℕ → Pc → ChannelPool → Type 0
BooksAt n ts i pc =
    Balance n (held pc + others held ts i) (uncounted pc + others uncounted ts i)
      (unlowered pc + others unlowered ts i) (drains pc + others drains ts i)

module _ {W : Type 0} (n : ℕ) where
  pub books_at :
      (s : System W) (i : ℕ) (pc : Pc)
      → get_elem? s.threads i ≡ some pc
      → Inv n s
      → BooksAt n s.threads i pc s.pool
  books_at s i pc e v =
      rw
        (
          sum_by-others held s.threads i pc e,
          sum_by-others uncounted s.threads i pc e,
          sum_by-others unlowered s.threads i pc e,
          sum_by-others drains s.threads i pc e,
        )
        at v.books

  replace-Inv :
      (s : System W) (i : ℕ) (old pc : Pc) (p : ChannelPool) (w : W)
      → get_elem? s.threads i ≡ some old
      → Inv n s
      → BooksAt n s.threads i pc p
      → Inv n (record { pool = p; world = w; threads = set s.threads i pc })
  replace-Inv s i old pc p w e v b = record {
    books =
        rw
          (
            sum_by-set held s.threads i old pc e,
            sum_by-set uncounted s.threads i old pc e,
            sum_by-set unlowered s.threads i old pc e,
            sum_by-set drains s.threads i old pc e,
          )
          b;
    room = omega (arith, v.room, length-set s.threads i pc);
  }

  begin-Inv :
      (start : Pc) (i : ℕ) (s : System W) (o : Option Pc)
      → held start ≡ 0
      → uncounted start ≡ 0
      → unlowered start ≡ 0
      → drains start ≡ 0
      → get_elem? s.threads i ≡ o
      → Inv n s
      → Inv n (begin start i o s)
  unfolding begin
  begin-Inv start i s (some finished) h u l d e v =
      replace-Inv s i finished start s.pool s.world e v
        (rw (h, u, l, d) (books_at s i finished e v))
  begin-Inv start i s (some (failed x)) h u l d e v =
      replace-Inv s i (failed x) start s.pool s.world e v
        (rw (h, u, l, d) (books_at s i (failed x) e v))
  begin-Inv start i s _ h u l d e v = v

  module _ (amqp : Amqp W) (opts : ChannelOptions W) where
    advance-Inv :
        (t : Turn) (i : ℕ) (s : System W) (o : Option Pc)
        → get_elem? s.threads i ≡ o
        → Inv n s
        → Inv n (advance amqp opts t i o s)
    unfolding advance
    advance-Inv t i s none e v = v
    advance-Inv t i s (some pc) e v = replace-Inv s i pc _ _ _ e v (
        step-Balance amqp opts t n (others held s.threads i) (others uncounted s.threads i)
          (others unlowered s.threads i) (others drains s.threads i) pc s.pool s.world
          (others_mono uncounted held held-ge s.threads i)
          (omega (arith, v.room, others-lt-length unlowered unlowered-le s.threads i pc e))
          (books_at s i pc e v))

    happen-Inv : (ev : Event W) (s : System W) → Inv n s → Inv n (happen amqp opts ev s)
    unfolding happen
    happen-Inv (turn i t) s v = advance-Inv t i s (get_elem? s.threads i) refl v
    happen-Inv (acquires i) s v =
        begin-Inv head i s (get_elem? s.threads i) refl refl refl refl refl v
    happen-Inv (closes i) s v =
        begin-Inv closing i s (get_elem? s.threads i) refl refl refl refl refl v
    happen-Inv (outside f) s v = record { books = v.books; room = v.room }

    pub run-Inv : (es : List (Event W)) (s : System W) → Inv n s → Inv n (run amqp opts es s)
    unfolding run
    run-Inv [] s v = v
    run-Inv (e ∷ es) s v = run-Inv es (happen amqp opts e s) (happen-Inv e s v)
