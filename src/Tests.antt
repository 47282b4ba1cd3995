-- ===== src/Tests.antt =====
-- Runs of the models at concrete inputs, and the instances of the results.
mod Domain
mod Invoice
mod Daemon
mod Agents
mod Billing
mod Rpc
mod Imports
mod Transcripts
