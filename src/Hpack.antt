-- ===== src/Hpack.antt =====
-- src/protocol/Hpack.cpp: header compression for HTTP/2 (RFC 7541).
pub mod StaticTable
pub mod Table
pub mod Integer
pub mod Huffman
pub mod Codec
mod Tests
