-- ===== src/Grpc.antt =====
-- src/protocol/GrpcFramer.cpp: gRPC messages as length-prefixed frames.
pub mod Frames
mod Tests
use linux_highperf_proxy.Base.{
  ℕ, zero, suc, ◌+◌, ◌*◌, ◌/◌, ◌%◌, ◌^◌, List, [], ◌∷◌, ◌++◌, ltb, ◌==◌, if◌then◌else◌, length,
  take, drop,
}
use linux_highperf_proxy.Base.Outcome.{Outcome, ok, failed, stuck}

-- (n >> 24) & 0xFF, (n >> 16) & 0xFF, (n >> 8) & 0xFF, n & 0xFF
abbrev pub big_endian32 : ℕ → List ℕ
big_endian32 n = n / 2 ^ 24 % 256 ∷ n / 2 ^ 16 % 256 ∷ n / 2 ^ 8 % 256 ∷ n % 256 ∷ []

-- The length is cut to 32 bits.
pub encode_message : List ℕ → List ℕ
encode_message message = 0x00 ∷ big_endian32 (length message % 2 ^ 32) ++ message

-- The state of the loop is what is left of the input and the messages read. `off + n` is a sum of
-- size_t below 2^64, and off <= len, so `off + n > len` says that fewer than n bytes are left.
pub decode_loop : ℕ → List ℕ → List (List ℕ) → Outcome (List (List ℕ))
decode_loop fuel [] out = ok out
decode_loop zero (b ∷ rest) out = stuck
decode_loop (suc fuel) (compressed ∷ b1 ∷ b2 ∷ b3 ∷ b4 ∷ rest) out =
    let n = b1 * 2 ^ 24 + b2 * 2 ^ 16 + b3 * 2 ^ 8 + b4 in
    let more = decode_loop fuel (drop n rest) (out ++ (take n rest ∷ [])) in
    if compressed == 0 then if ltb (length rest) n then failed else more else failed
decode_loop (suc fuel) _ out = failed

-- Each round takes five bytes at least, so as much fuel as bytes is enough.
pub decode_messages : List ℕ → Outcome (List (List ℕ))
decode_messages input = decode_loop (length input) input []
