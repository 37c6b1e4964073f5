-- ===== src/Vector.antt =====
-- src/vector: merging semantic and text search.
pub mod Fusion
pub mod Order
pub mod Sorted
pub mod Cooldown
pub mod Handoff
pub mod Exclusion
pub mod Takeover
pub mod CatchupTests
pub mod Tests
