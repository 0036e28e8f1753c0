-- ===== src/Memory.antt =====
-- src/common: the allocators.
pub mod Buddy
mod Tests
