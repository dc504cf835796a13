-- ===== src/Lib.antt =====
-- eamqp: a Go component over github.com/rabbitmq/amqp091-go with connection and channel pools,
-- wrappers of AMQP channels, producers and consumers, and reconnection.
--
-- How the parts interact. A `Client` (client.go) has a single connection, on which it opens channels,
-- or a ConnectionPool (pool.go), which has several connections with one ChannelPool each and uses them
-- in turn. A ChannelPool lends raw channels of amqp091-go; the client wraps a leased one in a Channel
-- (channel.go) with two callbacks, `release` and `discard`, of which Close calls one. Producers and
-- consumers work through a Channel.
--
-- Which file models which part:
--   Amqp              amqp091-go, the logger, the metrics, the clock and the tracer: parameters only
--   Pool              pool.go, ChannelPool: state and uninterrupted operations
--   Pool/Steps        Acquire, release, discard, Close as atomic steps; Pool/Machine interleaves them
--   Pool/Acquire      Acquire as one function; Pool/Release and Pool/Close likewise
--   Connections       pool.go, ConnectionPool; Connections/Dial is dialAll, Connections/Shutdown Close
--   Channel           channel.go: the wrapper's state, acquireChannel, RawChannel, Close
--   Channel/Topology, Publish, Messages, Notify
--                     its other methods; Channel/Calls has them as values
--   Channel/Lifecycle methods and Close interleaved over goroutines
--   Producer, Producer/Batch
--                     producer.go: Producer and BatchProducer, over Channel
--   Consumer          consumer.go: Consumer and RetryConsumer; Consumer/Workers interleaves the workers
--                     of ConsumeWithWorkers
--   Client            client.go; Client/Health and Client/Ping are health.go
--   Client/Wrapped    client.go, the wrapper of a leased channel and its callbacks
--   Client/New        client.go, New with its options, and dialConnection; ConnectionPool.dial
--   Config            config.go: Config/Redact has the redaction of passwords, Config/Uris parseURIs,
--                     Config/Tls the TLS files, Config/Build buildAmqpConfig
--   Notify            pool.go and client.go: the forwarding goroutines of NotifyClose and NotifyBlocked
--   Tables            types.go, QueueArgs; Tables/Trace is the rest of trace.go
--   Errors            errors.go
--   Helpers           eamqp.go, over Channel
--   Container         container.go, and the registry of stat.go
--   Observability     observability.go, metrics.go, and the monitor and the report of stat.go
--   Client/Accessors  the methods of client.go and pool.go that only read, or listen to connections
--   Client/Kept       which connections a client holds after it has dialled
--   Client/Lent       a lease from NewChannel to Close: client, connection pool, channel pool and wrapper
--   Channel/Beside    a raw channel beside state that it does not reach
--   Examples/Settings examples/internal/exampleconfig
--   Examples/Program  what the mains of examples/ share; the other files of Examples are named for the
--                     programs, or for what they do
--   Text              the functions of Go's strings on which config.go rests, over code points
--   Reconnect         reconnect.go: the policy, the manager and its loop
--   Tests             concrete runs
-- The other files below these hold lemmas and theorems, and are named for what they are about.
--
-- State and operations. A struct is a record and an operation takes the state and returns it changed.
-- The outside world (the broker, the network, the clock) is a type of its own that every outside call
-- may change. A pointer to an object of amqp091-go is a number. int32 and int64 counters are bit
-- patterns with their wrap-around written out; an int is an integer where the code may make it
-- negative. A panic is a value of `Outcome`. Where goroutines interleave, a step is a critical section,
-- a select, an atomic operation or an outside call, and a run is any list of such steps by any number
-- of goroutines.
--
-- Bounds and fuel. `Pool.Alone.alone` runs the steps of Acquire on fuel; what is enough is stated there.
-- `Reconnect.reconnect_loop` and `Helpers.reconnect_loop` take one unit for each round of the loop.
-- The number of goroutines and the pool size together lie below 2^63 where the int64 counter `active`
-- must not wrap. `Examples.Transaction.count_messages` takes one unit for each message and one to find
-- the queue empty.
--
-- Not modelled: what crypto/tls, net/url, the file system, OpenTelemetry, the Ego framework and
-- amqp091-go do, which are parameters; memory, of which there is enough for what make allocates (a
-- channel pool of an absurd size panics in Go); the ticker of the monitor and the HTTP handler of
-- stat.go; and what the example programs print, and measure to print it.
pub mod Base
pub mod Amqp
pub mod Pool
pub mod Connections
pub mod Channel
pub mod Tests
pub mod Reconnect
pub mod Producer
pub mod Client
pub mod Consumer
pub mod Text
pub mod Config
pub mod Tables
pub mod Notify
pub mod Errors
pub mod Helpers
pub mod Container
pub mod Observability
pub mod Examples
