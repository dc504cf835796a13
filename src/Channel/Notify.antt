-- ===== src/Channel/Notify.antt =====
-- channel.go, the notification methods. On a closed channel each hands out a Go channel that is
-- closed already.
use eamqp.Base.{ℕ, true, Option, none, some}
use eamqp.Amqp.Raw.{Raw}
use eamqp.Channel.{Channel, perform}

module _ {S : Type 0} (raw : Raw S) where
  -- The Go channel of the raw method, or a new one that is closed at once.
  unfoldable pub listened : Option ℕ × Channel S × S → ℕ × Channel S × S
  listened (some n, ch, s) = (n, ch, s)
  listened (none, ch, s) = let (n, s') = raw.closed_go_channel s in (n, ch, s')

  abbrev pub listen : (ℕ → S → ℕ × S) → ℕ → S → Option ℕ × S
  listen f c s = let (n, s') = f c s in (some n, s')

  unfoldable pub notify_close : Channel S → S → ℕ × Channel S × S
  unfolding listened
  notify_close ch s = listened (perform (λ e. none) true (listen raw.notify_close) ch s)

  unfoldable pub notify_flow : Channel S → S → ℕ × Channel S × S
  unfolding listened
  notify_flow ch s = listened (perform (λ e. none) true (listen raw.notify_flow) ch s)

  unfoldable pub notify_return : Channel S → S → ℕ × Channel S × S
  unfolding listened
  notify_return ch s = listened (perform (λ e. none) true (listen raw.notify_return) ch s)

  unfoldable pub notify_cancel : Channel S → S → ℕ × Channel S × S
  unfolding listened
  notify_cancel ch s = listened (perform (λ e. none) true (listen raw.notify_cancel) ch s)

  unfoldable pub notify_publish : Channel S → S → ℕ × Channel S × S
  unfolding listened
  notify_publish ch s = listened (perform (λ e. none) true (listen raw.notify_publish) ch s)

  unfoldable pub confirmed : ℕ → ℕ → Option (Unit {0}) × Channel S × S → Channel S × S
  confirmed acks nacks (some ran, ch, s) = (ch, s)
  confirmed acks nacks (none, ch, s) =
      (ch, raw.close_go_channel nacks (raw.close_go_channel acks s))

  -- It returns the two Go channels that it was given.
  unfoldable pub notify_confirm : ℕ → ℕ → Channel S → S → Channel S × S
  unfolding confirmed
  notify_confirm acks nacks ch s =
      confirmed acks nacks
        (perform (λ e. none) true (λ c t. (some tt, raw.notify_confirm c acks nacks t)) ch s)
