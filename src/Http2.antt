-- ===== src/Http2.antt =====
-- src/protocol/Http2Connection.cpp and include/proxy/protocol/Http2Common.h: the h2c connection
-- handler, from bytes to requests and from responses to bytes.
pub mod Frame
pub mod Stream
pub mod Connection
pub mod Send
mod Tests
