-- ===== src/Client/Wrapped.antt =====
-- client.go, NewChannel and AcquireChannel: the wrapper, and the two callbacks of a leased channel. The
-- callbacks hold on to the connection pool that the lease is from, so the world has that pool in it.
use eamqp.Base.{ℕ, Option, none, some, Result, ok, err, get_elem?, set}
use eamqp.Amqp.{Amqp}
use eamqp.Amqp.Raw.{Metric, channel_returned}
use eamqp.Pool.{ChannelPool}
use eamqp.Pool.Release.{release_now, discard_now}
use eamqp.Connections.{ConnectionPool}
use eamqp.Channel.{Channel, ClientView, new_channel, new_channel_with_release}
use eamqp.Client.{Opened, direct, pooled, pending, failed}

module _ {W : Type 0} (amqp : Amqp W) (record_metric : Metric → W → W) where
  -- A change of the channel pool in a slot.
  unfoldable pub at_slot :
      (ChannelPool → W → ChannelPool × W)
      → ℕ
      → Option (Option ChannelPool)
      → ConnectionPool
      → W
      → ConnectionPool × W
  at_slot f i (some (some cp)) p w =
      let (cp', w') = f cp w in (record p { channel_pools = set p.channel_pools i (some cp') }, w')
  at_slot f i _ p w = (p, w)

  unfoldable pub give_back :
      (ChannelPool → W → ChannelPool × W) → ℕ → ConnectionPool × W → ConnectionPool × W
  unfolding at_slot
  give_back f i (p, w) =
      let (p', w') = at_slot f i (get_elem? p.channel_pools i) p w in
      (p', record_metric channel_returned w')

  -- release(); c.metrics.RecordChannelReturned()
  unfoldable pub on_release : ℕ → ℕ → ConnectionPool × W → ConnectionPool × W
  unfolding give_back
  on_release i c = give_back (release_now amqp (some c)) i

  -- discard(); c.metrics.RecordChannelReturned()
  unfoldable pub on_discard : ℕ → ℕ → ConnectionPool × W → ConnectionPool × W
  unfolding give_back
  on_discard i c = give_back (discard_now amqp (some c)) i

  -- The wrapper; `none` while the call is blocked.
  unfoldable pub wrapped : ClientView → Opened → Option (Result (Channel (ConnectionPool × W)))
  unfolding on_release on_discard
  wrapped view (direct c) = some (ok (new_channel c (some view)))
  wrapped view (pooled i c) =
      some (ok (new_channel_with_release c (some view) (on_release i c) (on_discard i c)))
  wrapped view (pending i) = none
  wrapped view (failed e) = some (err e)
