-- ===== src/Hpack/Codec.antt =====
-- Hpack's DecodeString, EncodeStringRaw, Decode and EncodeNoIndex.
pub mod RoundTrip
pub mod Safety
use linux_highperf_proxy.Base.{
  ℕ, zero, suc, ◌+◌, ◌-◌, ◌*◌, ◌/◌, ◌%◌, ◌^◌, List, [], ◌∷◌, ◌++◌, Option, none, some, ◌>>=◌, Bool,
  not, ◌&&◌, ◌||◌, ltb, leb, ◌==◌, if◌then◌else◌, length, take, drop,
}
use linux_highperf_proxy.Base.Outcome.{Outcome, ok, failed, stuck}
use linux_highperf_proxy.Hpack.StaticTable.{Header, header}
use linux_highperf_proxy.Hpack.Table.{Table, update_max_size, add_dynamic, get_by_index}
use linux_highperf_proxy.Hpack.Integer.{decode_integer, encode_integer}
use linux_highperf_proxy.Hpack.Huffman.{huffman_decode}

-- A string and the number of bytes that it took; bit 0x80 of the first byte tells a Huffman string.
unfoldable pub decode_string : List ℕ → Option (List ℕ × ℕ)
decode_string [] = none
decode_string (b ∷ rest) = do
  (n, used) ← decode_integer (b ∷ rest) 7
  let body = take n (drop used (b ∷ rest))
  let plain = some (body, used + n)
  let huff = huffman_decode body >>= λ s. some (s, used + n)
  if ltb (length (b ∷ rest)) (used + n) then none else if leb 128 b then huff else plain

unfoldable pub encode_string_raw : List ℕ → List ℕ → List ℕ
encode_string_raw out s = encode_integer out (length s % 2 ^ 32) 7 0x00 ++ s

unfoldable pub encode_no_index : List Header → List ℕ → List ℕ
encode_no_index [] out = out
encode_no_index (h ∷ hs) out =
    encode_no_index hs
      (encode_string_raw (encode_string_raw (encode_integer out 0 4 0x00) h.name) h.value)

-- The name of a literal field: from the tables, or a string at the front of `rest`. The number is
-- that of the bytes of `rest` that it took.
unfoldable pub field_name : Table → ℕ → List ℕ → Option (List ℕ × ℕ)
field_name t name_index rest =
    if name_index == 0
    then decode_string rest
    else (get_by_index name_index t >>= λ e. some (e.name, 0))

-- A literal field whose index has `prefix` bits; it goes to the dynamic table if `add` says so.
unfoldable pub decode_literal : Table → List ℕ → ℕ → Bool → Option (Table × List Header × ℕ)
decode_literal t rest prefix add = do
  (name_index, used) ← decode_integer rest prefix
  (name, c) ← field_name t name_index (drop used rest)
  (value, c') ← decode_string (drop (used + c) rest)
  some (
    (if add then add_dynamic (header name value) t else t),
    header name value ∷ [],
    used + c + c',
  )

-- Indexed Header Field Representation (1xxxxxxx)
unfoldable pub decode_indexed : Table → List ℕ → Option (Table × List Header × ℕ)
decode_indexed t rest = do
  (idx, used) ← decode_integer rest 7
  e ← get_by_index idx t
  some (t, header e.name e.value ∷ [], used)

-- Dynamic Table Size Update (001xxxxx)
unfoldable pub decode_size_update : Table → List ℕ → Option (Table × List Header × ℕ)
decode_size_update t rest = do
  (size, used) ← decode_integer rest 5
  some (update_max_size size t, [], used)

-- One round of the loop of Decode on input that begins with the byte `b`: the table, the headers
-- pushed and the number of bytes read; `none` is a `return false`, which leaves the table alone.
-- (b & 0x80), (b & 0xE0) == 0x20, (b & 0x40), (b & 0x10) and (b & 0xF0) as arithmetic on a byte.
unfoldable pub decode_field : Table → ℕ → List ℕ → Option (Table × List Header × ℕ)
decode_field t b rest =
    let inc_index = b / 64 % 2 == 1 in
    let never_index = b / 16 % 2 == 1 in
    let add = inc_index && not never_index in
    if leb 128 b
    then decode_indexed t rest
    else if b / 32 % 8 == 1
    then decode_size_update t rest
    else if inc_index
    then decode_literal t rest 6 add
    else if (b / 16 % 16 == 0) || (b / 16 % 16 == 1)
    then decode_literal t rest 4 add
    else none

-- The table is part of the result on every path, since a failure leaves earlier changes in place.
unfoldable pub decode_loop : ℕ → Table → List ℕ → List Header → Table × Outcome (List Header)
decode_loop fuel t [] out = (t, ok out)
decode_loop zero t (b ∷ rest) out = (t, stuck)
decode_loop (suc fuel) t (b ∷ rest) out = elim (decode_field t b (b ∷ rest)) [
  | none ↦ (t, failed)
  | some (t', hs, used) ↦ decode_loop fuel t' (drop used (b ∷ rest)) (out ++ hs)
]

-- Each round reads a byte at least, so as much fuel as bytes is enough.
unfoldable pub decode : Table → List ℕ → Table × Outcome (List Header)
decode t input = decode_loop (length input) t input []
