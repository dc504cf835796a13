-- ===== src/Amqp.antt =====
-- What the code takes from github.com/rabbitmq/amqp091-go and from its callers, as parameters: no
-- definition here stands for code of that package. `W` is the outside world, the broker, the network
-- and the clock included, which an operation may change. A `*amqp.Channel` and a `*amqp.Connection`
-- are numbers where they are not nil, and `Option ℕ` where they may be.
pub mod Values
pub mod Raw
use eamqp.Base.{ℕ, Option, Bool, Error, Result}

-- `Channel` hands out a channel exactly where its error is nil, which is amqp091-go's contract.
pub record Amqp (W : Type 0) : Type 0 where
  pub open_channel : ℕ → W → Result ℕ × W
  pub channel_is_closed : ℕ → W → Bool
  pub close_channel : ℕ → W → Option Error × W
  pub connection_is_closed : ℕ → W → Bool
  pub close_connection : ℕ → W → Option Error × W

-- `Options.ChannelOptions`: nil, or a callback over a raw channel.
abbrev pub ChannelOptions : Type 0 → Type 0
ChannelOptions W = Option (ℕ → W → Option Error × W)
