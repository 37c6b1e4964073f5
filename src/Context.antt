-- ===== src/Context.antt =====
-- src/context: which records a context bundle holds.
pub mod Model
pub mod Budget
pub mod Bounds
pub mod Fits
pub mod Shares
pub mod Accounts
pub mod Matching
pub mod Search
pub mod Collect
pub mod Retrieval
pub mod Sifting
pub mod Answers
pub mod Selected
pub mod Expected
pub mod Ordered
pub mod Precedence
pub mod Ranking
pub mod Receipt
pub mod Assembly
pub mod Registry
pub mod Registered
pub mod Chosen
pub mod Gathered
pub mod Behind
pub mod Composed
pub mod Settled
pub mod Filing
pub mod RegistryTests
pub mod Gate
pub mod Diagnosis
pub mod Tests
pub mod GateTests
pub mod BundleData
pub mod BundleTests
pub mod SelectTests
