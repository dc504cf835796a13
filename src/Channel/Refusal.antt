-- ===== src/Channel/Refusal.antt =====
-- channel.go: what a closed wrapper does.
use eamqp.Base.{Bool}
use eamqp.Amqp.Raw.{Raw}
use eamqp.Channel.{Channel}
use eamqp.Channel.Topology
use eamqp.Channel.Publish
use eamqp.Channel.Messages
use eamqp.Channel.Notify
use eamqp.Channel.Notify.{listened, confirmed}
