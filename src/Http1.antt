-- ===== src/Http1.antt =====
-- HTTP/1.1: requests and the incremental parsers of requests and responses.
pub mod Request
pub mod Context
pub mod Response
mod Tests
