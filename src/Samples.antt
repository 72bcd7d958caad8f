-- ===== src/Samples.antt =====
-- Concrete jobs, tasks and runs: tests of the code in spinach/, and the theorems applied to them.
mod Jobs
mod Registry
mod Queues
mod Broker
mod Ledger
mod Periodic
mod Workers
mod Server
mod Redis
mod Dead
mod Settings
mod Signals
mod Pool
mod Lifecycle
mod Arbiter
mod Keepalive
