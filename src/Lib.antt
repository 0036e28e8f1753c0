-- ===== src/Lib.antt =====
-- linux_highperf_proxy: the protocol core of the proxy server.
--
-- The proxy accepts TCP connections, tells HTTP/1.1 and HTTP/2 apart, parses requests, picks a
-- backend with a balancer and relays requests and responses. The development models the parts that
-- work on bytes and on states, and leaves the event loop, the sockets and the files aside.
--
-- A byte string (std::string, std::vector<uint8_t>, pointer and length) is a list of numbers; the
-- numbers are natural numbers with the wrap-around of the C++ type written out where it can occur.
--
-- Files:
--   Base        shared names, list lemmas, byte strings, outcomes, to_string
--   Protobuf    src/protocol/ProtobufLite.cpp: EncodeVarint is encode_varint, DecodeVarint
--               decode_varint, EncodeStringField1 and DecodeStringField1 likewise
--   Grpc        src/protocol/GrpcFramer.cpp: EncodeMessage, DecodeMessages
--   Hpack       src/protocol/Hpack.cpp: Table (AddDynamic, UpdateMaxSize, GetByIndex), Integer
--               (DecodeInteger, EncodeInteger), Huffman (GetHuffTrie, HuffmanDecode), Codec
--               (DecodeString, Decode, EncodeNoIndex)
--   Http2       src/protocol/Http2Connection.cpp and Http2Common.h: Frame (WriteFrame,
--               parseOneFrame), Stream (StreamState, Request), Connection (OnData and every
--               handler), Send (SendResponse, SendHeaders, SendData, SendTrailers)
--   Http1       include/proxy/protocol/HttpRequest.h; src/protocol/HttpContext.cpp: parseRequest is
--               parse_request, one round of its loop `round`; src/protocol/HttpResponseContext.cpp:
--               parseHeaderBlock, consumeChunked, consumeBody and feed under Response. strtoll, stoi,
--               stoll and strtoull are parameters
--   Rewrite     src/protocol/RewriteRules.cpp: matching (Bodies) and the rewriting of headers
--               (Headers) and bodies
--   Access      src/monitor/AccessControl.cpp: ParseCidr, IpAllowed and Allow; inet_pton is a
--               parameter
--   Memory      src/common/BuddyAllocator.cpp: blocks of an arena (Buddy), Allocate and Deallocate
--               (Buddy.Allocator); what malloc and posix_memalign give is an argument
--   Network     include/proxy/network/Buffer.h and src/network/Buffer.cpp; the contents of memory that
--               was just allocated and readv are parameters
--   Limits      src/monitor: Connections (PerKeyConnectionLimiter), Congestion (CongestionControl, where
--               `none` is an int that overflows)
--   Balancer    src/balancer: RoundRobin, ConsistentHash, LeastQueue; std::hash is a parameter.
--               Manager is BackendManager over the interface Balancer, whose promises are the record
--               IsBalancer (Sync); RoundRobin keeps them (Turns). Signals has the reports, Select the
--               choice of a backend. double is a type with operations
--
-- Loops that do not follow a list run on fuel. Hpack::Decode, DecodeMessages and parseFrames read
-- one byte at least in a round, so the number of bytes is enough; eviction drops an entry in a round,
-- so the number of entries is enough; parseRequest and consumeChunked
-- read a byte in every round that goes on; a size_t has 64 bits, so 65 rounds are enough for a loop
-- that doubles. That a loop ends before its fuel is among the results.
--
-- Not modelled: sockets, the event loop and the pollers, threads and locks (an operation under its
-- lock is one step), TLS, compression (zlib), plugins, the configuration files, logging and metrics
-- output. The rest of the proxy (service discovery, caching, batching, the sending of health checks) is
-- not modelled.
pub mod Base
pub mod Protobuf
pub mod Grpc
pub mod Hpack
pub mod Http1
pub mod Rewrite
pub mod Access
pub mod Memory
pub mod Http2
pub mod Network
pub mod Limits
pub mod Balancer
