-- ===== src/Examples.antt =====
-- Runs at concrete inputs: the claims at inputs that meet their hypotheses, and tests of the code.
mod Setup
mod Runs
mod Queues
mod Tables
mod Services
mod Stocks
mod Tasks
mod Inbound
mod Counting
mod Shipments
mod Outgoing
