-- ===== src/Hpack/Integer.antt =====
-- Hpack's DecodeInteger and EncodeInteger (RFC 7541, 5.1).
pub mod RoundTrip
use linux_highperf_proxy.Base.{
  ℕ, ◌+◌, ◌-◌, ◌*◌, ◌%◌, ◌^◌, List, [], ◌∷◌, ◌++◌, Option, none, some, ltb, ◌==◌, if◌then◌else◌,
}
use linux_highperf_proxy.Protobuf.{encode_varint}

-- The loop over the continuation bytes. At the end of the input it stops with what it has; sums and
-- shifts are those of uint32_t.
unfoldable pub integer_loop : List ℕ → ℕ → ℕ → ℕ → Option (ℕ × ℕ)
integer_loop [] val m off = some (val, off)
integer_loop (b ∷ rest) val m off =
    let val' = (val + b % 128 * 2 ^ m % 2 ^ 32) % 2 ^ 32 in
    let more = integer_loop rest val' (m + 7) (off + 1) in
    if ltb b 128 then some (val', off + 1) else if ltb 28 (m + 7) then none else more

-- prefixMax
abbrev pub prefix_max : ℕ → ℕ
prefix_max prefix_bits = 2 ^ prefix_bits - 1

-- The value and the number of bytes read.
unfoldable pub decode_integer : List ℕ → ℕ → Option (ℕ × ℕ)
decode_integer [] prefix_bits = none
decode_integer (b ∷ rest) prefix_bits =
    let val = b % 2 ^ prefix_bits in
    let more = integer_loop rest val 0 1 in
    if val == prefix_max prefix_bits then more else some (val, 1)

-- The mask has no bit among those of the prefix, so `|` is a sum. What is left after the prefix is
-- written by the same loop as ProtobufLite's varints.
unfoldable pub encode_integer : List ℕ → ℕ → ℕ → ℕ → List ℕ
encode_integer out value prefix_bits first_byte_mask =
    if ltb value (prefix_max prefix_bits)
    then out ++ ((first_byte_mask + value) % 256 ∷ [])
    else encode_varint (value - prefix_max prefix_bits)
        (out ++ ((first_byte_mask + prefix_max prefix_bits) % 256 ∷ []))
