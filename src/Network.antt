-- ===== src/Network.antt =====
-- The network layer below the protocols, as far as it is about bytes.
pub mod Buffer
mod Tests
