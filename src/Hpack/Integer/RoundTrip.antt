-- ===== src/Hpack/Integer/RoundTrip.antt =====
-- Hpack integers: what is written is read back, and what is read lies within the input.
use linux_highperf_proxy.Base.{
  ℕ, zero, suc, ◌+◌, ◌-◌, ◌*◌, ◌/◌, ◌%◌, ◌^◌, ◌≤◌, ◌<◌, ◌≡◌, refl, List, [], ◌∷◌, ◌++◌, some,
  length, append_assoc, All, All, arith, Bool-cases, inl, inr, ltb,
}
use native.Mathlib.Nat.{pow-le-pow_right, mod-eq_of_lt, mod-lt, one-le-pow}
use linux_highperf_proxy.Protobuf.{encode_varint}
use linux_highperf_proxy.Protobuf.Varint.{
  encode_varint-append, encode_varint_small, encode_varint_large, split_low_group,
}
use linux_highperf_proxy.Hpack.Integer.{integer_loop, decode_integer, encode_integer, prefix_max}

integer_loop-encode_varint :
    (k v val m off : ℕ) (rest : List ℕ)
    → m + 7 * k ≡ 28
    → v < 128 ^ suc k
    → val + v * 2 ^ m < 2 ^ 32
    → integer_loop (encode_varint v [] ++ rest) val m off
      ≡ some (val + v * 2 ^ m, off + length (encode_varint v []))
unfolding integer_loop
integer_loop-encode_varint zero v val m off rest hk hv fits = ground (arith, encode_varint_small v)
integer_loop-encode_varint (suc k) v val m off rest hk hv fits = ground (
  arith,
  split_low_group v m,
  encode_varint_small v,
  encode_varint_large v,
  integer_loop-encode_varint k (v / 128) (val + v % 128 * 2 ^ m) (m + 7) (off + 1) rest,
)

-- Every uint32 is read back from its encoding with a prefix of one to eight bits, whatever bytes
-- follow, and exactly the bytes of the encoding are consumed.
pub decode_integer-encode_integer :
    (v p : ℕ) (rest : List ℕ)
    → v < 2 ^ 32
    → 0 < p
    → p ≤ 8
    → decode_integer (encode_integer [] v p 0 ++ rest) p
      ≡ some (v, length (encode_integer [] v p 0))
unfolding decode_integer encode_integer
decode_integer-encode_integer v p rest h pos le =
    let lo : 2 ≤ 2 ^ p = pow-le-pow_right {n = 2} (omega arith) {i = 1} {j = p} pos in
    let hi : 2 ^ p ≤ 256 = pow-le-pow_right {n = 2} (omega arith) {i = p} {j = 8} le in
    let pm = 2 ^ p - 1 in
    let w = v - pm in
    let first : List ℕ = ((0 + pm) % 256) ∷ [] in
    ground (
      arith,
      lo,
      hi,
      mod-eq_of_lt {n = (0 + v) % 256} {m = 2 ^ p},
      mod-eq_of_lt {n = (0 + pm) % 256} {m = 2 ^ p},
      encode_varint-append w first,
      integer_loop-encode_varint 4 w pm 0 1 rest,
    )

integer_loop_bounds :
    (src : List ℕ) (val m off v used : ℕ)
    → integer_loop src val m off ≡ some (v, used)
    → (off ≤ used) × (used ≤ off + length src)
unfolding integer_loop
integer_loop_bounds [] val m off v used e = ground arith
integer_loop_bounds (b ∷ src) val m off v used e = ground (
  arith,
  integer_loop_bounds src ((val + b % 128 * 2 ^ m % 2 ^ 32) % 2 ^ 32) (m + 7) (off + 1) v used,
)

pub decode_integer_bounds :
    (src : List ℕ) (p v used : ℕ)
    → decode_integer src p ≡ some (v, used)
    → (0 < used) × (used ≤ length src)
unfolding decode_integer
decode_integer_bounds [] p v used e = cc
decode_integer_bounds (b ∷ src) p v used e =
    ground (arith, integer_loop_bounds src (b % 2 ^ p) 0 1 v used)

-- What stands in the output already stays in front.
pub encode_integer-append :
    (out : List ℕ) (v p mask : ℕ) → encode_integer out v p mask ≡ out ++ encode_integer [] v p mask
unfolding encode_integer
encode_integer-append out v p mask =
    let pm = prefix_max p in
    let first : List ℕ = ((mask + pm) % 256) ∷ [] in
    ground (
      arith,
      encode_varint-append (v - pm) (out ++ first),
      encode_varint-append (v - pm) first,
      append_assoc out first (encode_varint (v - pm) []),
    )

-- With the seven-bit prefix of a string's length the top bit of the first byte is clear.
pub encode_integer_head :
    (v : ℕ) → (b : ℕ) × (bs : List ℕ) × (encode_integer [] v 7 0 ≡ b ∷ bs) × (b < 128)
unfolding encode_integer
encode_integer_head v = elim (Bool-cases (ltb v 127)) [
  | inl small ↦ (v, [], ground arith, ground arith)
  | inr large ↦ (
    127,
    encode_varint (v - 127) [],
    ground (arith, encode_varint-append (v - 127) (127 ∷ [])),
    omega arith,
  )
]

-- The index 0 of a literal with a new name is one byte.
pub encode_integer_zero : (out : List ℕ) → encode_integer out 0 4 0 ≡ out ++ (0 ∷ [])
unfolding encode_integer
encode_integer_zero out = refl

pub decode_integer_zero : (rest : List ℕ) → decode_integer (0 ∷ rest) 4 ≡ some (0, 1)
unfolding decode_integer
decode_integer_zero rest = refl

integer_loop_word :
    (src : List ℕ) (val m off v used : ℕ)
    → val < 2 ^ 32
    → integer_loop src val m off ≡ some (v, used)
    → v < 2 ^ 32
unfolding integer_loop
integer_loop_word [] val m off v used h e = ground arith
integer_loop_word (b ∷ src) val m off v used h e = ground (
  arith,
  integer_loop_word src ((val + b % 128 * 2 ^ m % 2 ^ 32) % 2 ^ 32) (m + 7) (off + 1) v used,
)

-- What is read is a uint32.
pub decode_integer_word :
    (src : List ℕ) (p v used : ℕ) → p ≤ 8 → decode_integer src p ≡ some (v, used) → v < 2 ^ 32
unfolding decode_integer
decode_integer_word [] p v used le e = cc
decode_integer_word (b ∷ src) p v used le e =
    let hi : 2 ^ p ≤ 256 = pow-le-pow_right {n = 2} (omega arith) {i = p} {j = 8} le in
    let lo : 0 < 2 ^ p = one-le-pow p 2 (omega arith) in
    ground (arith, mod-lt b {m = 2 ^ p}, integer_loop_word src (b % 2 ^ p) 0 1 v used)

-- The value that the loop has when the input ends.
integer_loop_cut :
    (bs : List ℕ) (val m off : ℕ)
    → All (λ b. 128 ≤ b) bs
    → m + 7 * length bs ≤ 28
    → (v : ℕ) × (integer_loop bs val m off ≡ some (v, off + length bs))
unfolding integer_loop
integer_loop_cut [] val m off h le = (val, ground arith)
integer_loop_cut (b ∷ bs) val m off (hb, h) le =
    let val' = (val + b % 128 * 2 ^ m % 2 ^ 32) % 2 ^ 32 in
    let (v, e) = integer_loop_cut bs val' (m + 7) (off + 1) h (omega arith) in
    (v, ground (arith, e))

-- The end of the input in the middle of an integer is not an error: where the prefix is full and the
-- bytes that are left, four at most, all announce another one, an integer is returned.
pub decode_integer_truncated :
    (p : ℕ) (bs : List ℕ)
    → All (λ b. 128 ≤ b) bs
    → length bs ≤ 4
    → (v : ℕ) × (decode_integer (prefix_max p ∷ bs) p ≡ some (v, 1 + length bs))
unfolding decode_integer
decode_integer_truncated p bs h le =
    let lo : 0 < 2 ^ p = one-le-pow p 2 (omega arith) in
    let val = prefix_max p % 2 ^ p in
    let (v, e) = integer_loop_cut bs val 0 1 h (omega arith) in
    (v, ground (arith, mod-eq_of_lt {n = prefix_max p} {m = 2 ^ p}, e))
