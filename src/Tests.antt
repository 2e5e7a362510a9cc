-- ===== src/Tests.antt =====
-- The theorems at concrete inputs: a small book of trades, batches made from it, a race between
-- three arrivals, and a reconciliation.
pub mod Samples
mod Batches
mod Races
mod Books
mod Verdicts
mod Loads
mod Simulations
mod Alarms
mod Sharing
mod Commands
mod Diagnosis
mod Graphs
mod Scripts
mod Runs
