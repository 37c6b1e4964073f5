-- ===== src/Filter.antt =====
-- src/filter: the `--where` flags of a search.
pub mod Terms
pub mod Text
pub mod Parse
pub mod Apply
pub mod Schema
pub mod Policy
pub mod Known
pub mod Print
pub mod Trim
pub mod RoundTrip
pub mod Flags
pub mod Plain
pub mod Tests
