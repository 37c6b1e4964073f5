-- ===== src/Lifecycle.antt =====
-- src/record/lifecycle: what an append may supersede.
pub mod Rules
pub mod State
pub mod Append
pub mod Graph
pub mod Registry
pub mod Describes
pub mod Lookup
pub mod Ledger
pub mod Checks
pub mod Edge
pub mod Cycles
pub mod Fuel
pub mod Heads
pub mod Keys
pub mod Writer
pub mod Candidate
pub mod Added
pub mod Sound
pub mod Total
pub mod Calm
pub mod Valid
pub mod Step
pub mod Writes
pub mod Tests
