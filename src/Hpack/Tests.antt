-- ===== src/Hpack/Tests.antt =====
-- Hpack at concrete inputs; the theorems at inputs that meet their hypotheses.
use linux_highperf_proxy.Base.{ℕ, ◌+◌, ◌≡◌, refl, List, [], ◌∷◌, ◌++◌, some, length, arith}
use linux_highperf_proxy.Base.Bytes.{codes}
use linux_highperf_proxy.Base.Outcome.{ok}
use linux_highperf_proxy.Hpack.StaticTable.{Header, header}
use linux_highperf_proxy.Hpack.Table.{init, add_dynamic, get_by_index}
use linux_highperf_proxy.Hpack.Table.Evict.{newest, init-IsValid, add_dynamic-newest}
use linux_highperf_proxy.Hpack.Integer.{decode_integer, encode_integer, prefix_max}
use linux_highperf_proxy.Hpack.Integer.RoundTrip.{
  decode_integer-encode_integer, decode_integer_truncated,
}
use linux_highperf_proxy.Hpack.Huffman.{
  huffman_decode, huff_trie, walk, step, arrive, child, finish, input_bits,
}
use linux_highperf_proxy.Hpack.Huffman.Decode.{encode_bits, code_of, huffman_decode-encode_bits}
use linux_highperf_proxy.Hpack.Codec.{
  decode_string, encode_no_index, field_name, decode_literal, decode_indexed, decode_field,
  decode_loop, decode,
}
use linux_highperf_proxy.Hpack.Codec.RoundTrip.{decode-encode_no_index}
use linux_highperf_proxy.Hpack.Codec.Safety.{incremental_not_added}

-- "www.example.com" in RFC 7541, C.4.1.
abbrev www : List ℕ
www = 0xf1 ∷ 0xe3 ∷ 0xc2 ∷ 0xe5 ∷ 0xf2 ∷ 0x3a ∷ 0x6b ∷ 0xa0 ∷ 0xab ∷ 0x90 ∷ 0xf4 ∷ 0xff ∷ []

huffman_www : huffman_decode www ≡ some (codes "www.example.com")
unfolding huffman_decode walk step arrive child finish huff_trie
huffman_www = refl

indexed_get : (decode init (0x82 ∷ [])).1 ≡ ok (header (codes ":method") (codes "GET") ∷ [])
unfolding decode decode_loop decode_field decode_indexed decode_integer get_by_index
indexed_get = refl

-- user-agent: x, with incremental indexing: index 58.
abbrev user_agent : List ℕ
user_agent = 0x7a ∷ 0x01 ∷ codes "x"

user_agent_decodes :
    decode_field init 0x7a user_agent ≡ some (init, header (codes "user-agent") (codes "x") ∷ [], 3)
unfolding decode_field decode_literal field_name decode_string decode_integer get_by_index init
user_agent_decodes = refl

incremental_not_added_example : init ≡ init
incremental_not_added_example =
    incremental_not_added init 0x7a user_agent (omega arith) (omega arith) refl user_agent_decodes

decode_integer-encode_integer_example :
    decode_integer (encode_integer [] 1337 5 0 ++ (9 ∷ [])) 5
    ≡ some (1337, length (encode_integer [] 1337 5 0))
decode_integer-encode_integer_example =
    decode_integer-encode_integer 1337 5 (9 ∷ []) (omega arith) (omega arith) (omega arith)

decode_integer_truncated_example :
    (v : ℕ) × (decode_integer (prefix_max 5 ∷ 0x9a ∷ []) 5 ≡ some (v, 1 + 1))
decode_integer_truncated_example =
    decode_integer_truncated 5 (0x9a ∷ []) (omega arith) (omega arith)

-- "a" is 00011 in the code; three ones pad it to a byte.
huffman_decode-encode_bits_example : huffman_decode (0x1f ∷ []) ≡ some (codes "a")
unfolding encode_bits code_of linux_highperf_proxy.Hpack.Huffman.code_bits
    linux_highperf_proxy.Hpack.Huffman.Codes.huff_sym_table
huffman_decode-encode_bits_example =
    huffman_decode-encode_bits (0x1f ∷ []) (codes "a") 3 (omega arith) (omega arith) refl

abbrev custom : Header
custom = header (codes "x-a") (codes "b")

add_dynamic-newest_example : add_dynamic custom init ≡ newest init.max_size (custom ∷ init.dynamic)
add_dynamic-newest_example = add_dynamic-newest custom init init-IsValid

decode-encode_no_index_example :
    decode init (encode_no_index (custom ∷ custom ∷ []) []) ≡ (init, ok (custom ∷ custom ∷ []))
decode-encode_no_index_example = decode-encode_no_index init (custom ∷ custom ∷ []) (omega arith)
