-- ===== src/Limits.antt =====
-- src/monitor: what bounds the load, per key and for all backends together.
pub mod Connections
pub mod Congestion
mod Tests
