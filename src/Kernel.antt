-- ===== src/Kernel.antt =====
-- src/kernel: what the components share.
pub mod Error
pub mod Identity
pub mod Authority
pub mod Tests
