-- ===== src/Balancer.antt =====
-- src/balancer: how a backend is chosen.
pub mod RoundRobin
pub mod ConsistentHash
pub mod LeastQueue
pub mod Manager
mod Tests
