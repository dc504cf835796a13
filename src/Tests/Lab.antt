-- ===== src/Tests/Lab.antt =====
-- A broker for the tests: it hands out numbered channels, and closes what it is told to close.
use eamqp.Base.{ℕ, suc, ◌≡◌, Bool, true, false, none, List, [], ◌∷◌, ok, ◌==◌, arith, if◌then◌else◌}
use eamqp.Base.Int.{pos}
use eamqp.Amqp.{Amqp}
use eamqp.Pool.{PoolConfig}
use eamqp.Pool.Exclusive.{Fresh}
use eamqp.Connections.Slots.{Closing, ClosingChannels}

pub record World : Type 0 where
  pub next : ℕ
  pub shut : List ℕ
  pub hung_up : List ℕ

abbrev pub among : ℕ → List ℕ → Bool
among c [] = false
among c (d ∷ ds) = if c == d then true else among c ds

abbrev pub quiet : World
quiet = record { next = 0; shut = []; hung_up = [] }

abbrev pub lab : Amqp World
lab = record {
  open_channel = λ conn w. (ok w.next, record w { next = suc w.next });
  channel_is_closed = λ c w. among c w.shut;
  close_channel = λ c w. (none, record w { shut = c ∷ w.shut });
  connection_is_closed = λ c w. among c w.hung_up;
  close_connection = λ c w. (none, record w { hung_up = c ∷ w.hung_up });
}

abbrev pub one_channel : PoolConfig
one_channel = record { channel_pool_size = pos 1; channel_pool_max_idle = pos 1 }

among-first : (c : ℕ) (l : List ℕ) → among c (c ∷ l) ≡ true
among-first c l = ground arith

among-later : (c d : ℕ) (l : List ℕ) → among d l ≡ true → among d (c ∷ l) ≡ true
among-later c d l h = ground arith

pub lab-Closing : Closing lab
lab-Closing = record {
  closes = λ c w. among-first c w.hung_up;
  stays = λ c d w h. among-later c d w.hung_up h;
}

pub lab-ClosingChannels : ClosingChannels lab
lab-ClosingChannels = record {
  closes_channel = λ c w. among-first c w.shut;
  stays_closed = λ c d w h. among-later c d w.shut h;
  stays_closed_below = λ c d w h. h;
  stays_down = λ c d w h. h;
}

pub lab-Fresh : Fresh lab none
lab-Fresh = record {
  issued = λ w. w.next;
  opens = λ conn w. (omega arith, omega arith);
  closes_channel = λ c w. omega arith;
  configures = tt;
}
