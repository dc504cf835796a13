-- ===== src/Pool/Release.antt =====
-- pool.go, ChannelPool.release and discard where no other goroutine runs meanwhile.
use eamqp.Base.{ℕ, not, Option, [], ◌∷◌, ◌++◌, if◌then◌else◌}
use eamqp.Amqp.{Amqp}
use eamqp.Pool.{ChannelPool, add_one, release_permit, is_usable, close_quietly, has_room}

module _ {W : Type 0} (amqp : Amqp W) where
  unfoldable pub release_now : Option ℕ → ChannelPool → W → ChannelPool × W
  release_now ch p w =
      if p.closed
      then (release_permit p, close_quietly amqp ch w)
      else if not (is_usable amqp ch w)
      then (release_permit p, w)
      else if has_room p
      then (record p { idle = p.idle ++ ch ∷ []; returned = add_one p.returned }, w)
      else (release_permit p, close_quietly amqp ch w)

  unfoldable pub discard_now : Option ℕ → ChannelPool → W → ChannelPool × W
  discard_now ch p w = (release_permit p, close_quietly amqp ch w)
