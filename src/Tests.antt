-- ===== src/Tests.antt =====
-- Concrete runs: each theorem of the library at an input at which its hypotheses hold.
mod Lab
mod Tally
mod PoolRuns
mod ConnectionRuns
mod ChannelRuns
mod ReconnectRuns
mod ProducerRuns
mod ClientRuns
mod ConfigRuns
mod ConsumerRuns
mod WorkerRuns
mod NotifyRuns
mod HelperRuns
mod TableRuns
mod LeaseRuns
mod ExampleRuns
