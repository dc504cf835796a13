-- ===== src/Examples.antt =====
-- examples/: what the example programs do, without what they print.
pub mod Settings
pub mod Program
pub mod DeadLetter
pub mod RetryListener
pub mod Judged
pub mod Batches
pub mod Consumers
pub mod Publishers
pub mod Rpc
pub mod Transaction
pub mod Confirms
pub mod Pubsub
pub mod PoolUse
