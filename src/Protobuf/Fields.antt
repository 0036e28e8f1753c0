-- ===== src/Protobuf/Fields.antt =====
-- ProtobufLite's message with field 1: round trip, termination, and what a huge length does.
use linux_highperf_proxy.Base.{
  ℕ, zero, suc, ◌+◌, ◌%◌, ◌^◌, ◌≤◌, ◌<◌, ◌≡◌, ◌≢◌, refl, ◌∙◌, List, [], ◌∷◌, ◌++◌, some, subst, inl,
  inr, length, length-append, length-drop, take, drop, drop-length-append, take-length-append,
  append-nil, arith, Option-cases, ltb, if◌then◌else◌,
}
use linux_highperf_proxy.Base.Outcome.{ok, failed, fault, stuck}
use linux_highperf_proxy.Protobuf.{
  encode_varint, decode_varint, encode_string_field1, skip_field, read_string, field_loop,
  decode_string_field1,
}
use linux_highperf_proxy.Protobuf.Varint.{
  decode_varint-encode_varint, decode_varint_bounds, encode_varint-append,
}

skip_field_bound :
    (wire : ℕ) (rest : List ℕ) (skip : ℕ) → skip_field wire rest ≡ some skip → skip ≤ length rest
unfolding skip_field
skip_field_bound wire rest skip e = elim (Option-cases (decode_varint rest)) [
  | inl n ↦ ground arith
  | inr ((v, used), d) ↦ ground (arith, decode_varint_bounds rest v used d)
]

read_string-ne-stuck : (src : List ℕ) (off : ℕ) → read_string src off ≢ stuck
unfolding read_string
read_string-ne-stuck src off e = ground arith

-- One round consumes at least the byte of a key, and never passes the end of the input.
field_loop-ne-stuck :
    (fuel : ℕ) (src : List ℕ) (off : ℕ)
    → off ≤ length src
    → length src < off + fuel
    → field_loop fuel src off ≢ stuck
unfolding field_loop
field_loop-ne-stuck zero src off le h e = absurd (omega arith)
field_loop-ne-stuck (suc fuel) src off le h e = elim (Option-cases (decode_varint (drop off src))) [
  | inl n ↦ ground arith
  | inr ((key, used), d) ↦
      let b = decode_varint_bounds (drop off src) key used d in
      elim (Option-cases (skip_field (key % 8) (drop (off + used) src))) [
        | inl n ↦ ground (arith, read_string-ne-stuck src (off + used))
        | inr (skip, d') ↦
            let b' = skip_field_bound (key % 8) (drop (off + used) src) skip d' in
            ground (
              arith,
              read_string-ne-stuck src (off + used),
              length-drop off src,
              length-drop (off + used) src,
              field_loop-ne-stuck fuel src (off + used + skip),
            )
      ]
]

-- The decoder returns on every input: each round of its loop consumes a byte at least, also where
-- the sum of a field's length wraps.
pub decode_string_field1-ne-stuck : (src : List ℕ) → decode_string_field1 src ≢ stuck
unfolding decode_string_field1
decode_string_field1-ne-stuck src =
    field_loop-ne-stuck (suc (length src)) src 0 (omega arith) (omega arith)

-- The tag 0x0A is one byte long.
decode_tag : (rest : List ℕ) → decode_varint (0x0A ∷ rest) ≡ some (0x0A, 1)
unfolding decode_varint
decode_tag rest = refl

-- What the loop makes of a message that starts with field 1: it reads the string.
decode_field1 : (rest : List ℕ) → decode_string_field1 (0x0A ∷ rest) ≡ read_string (0x0A ∷ rest) 1
unfolding decode_string_field1 field_loop
decode_field1 rest = ground (arith, decode_tag rest)

drop_tag : (xs ys : List ℕ) → drop (1 + length xs) (0x0A ∷ xs ++ ys) ≡ ys
drop_tag xs ys =
    let e : 1 + length xs ≡ suc (length xs) = omega arith in rw e (drop-length-append xs ys)

read_string-encode :
    (n : ℕ) (rest : List ℕ)
    → n < 2 ^ 64
    → let src = 0x0A ∷ encode_varint n [] ++ rest in
      let used = length (encode_varint n []) in
      read_string src 1 ≡ (
        if ltb (length src) ((1 + used + n) % 2 ^ 64)
        then failed
        else if ltb (length src) (1 + used + n)
        then fault
        else ok (take n rest))
unfolding read_string
read_string-encode n rest h =
    rw (decode_varint-encode_varint n rest h, read_string) (rw (drop_tag (encode_varint n []) rest))

-- An encoding takes ten bytes at most.
length-encode_varint : (n : ℕ) → n < 2 ^ 64 → length (encode_varint n []) ≤ 10
length-encode_varint n h =
    let e = decode_varint-encode_varint n [] h in (decode_varint_bounds _ n _ e).3

take_all : (s : List ℕ) → take (length s) s ≡ s
take_all s = subst (λ t. take (length s) t ≡ s) (append-nil s) (take-length-append s [])

-- A message that was encoded is decoded to its string.
pub decode_string_field1-encode_string_field1 :
    (s : List ℕ) → length s + 11 < 2 ^ 64 → decode_string_field1 (encode_string_field1 s) ≡ ok s
unfolding encode_string_field1
decode_string_field1-encode_string_field1 s h =
    let n : length s % 2 ^ 64 ≡ length s = omega arith in
    let e = encode_varint (length s) [] in
    rw (n, encode_varint-append (length s) (0x0A ∷ []), decode_field1)
      (read_string-encode (length s) s (omega arith)
        ∙ ground
            (arith, take_all s, length-append e s, length-encode_varint (length s) (omega arith)))

-- A length so large that its end wraps past 2^64 is not refused: the range handed to assign() ends
-- before it starts.
pub decode_string_field1_wraps :
    (n : ℕ) (rest : List ℕ)
    → n < 2 ^ 64
    → 2 ^ 64 ≤ 1 + length (encode_varint n []) + n
    → length rest < 2 ^ 63
    → decode_string_field1 (0x0A ∷ encode_varint n [] ++ rest) ≡ fault
decode_string_field1_wraps n rest h wraps small =
    decode_field1 (encode_varint n [] ++ rest)
    ∙ read_string-encode n rest h
    ∙ ground (arith, length-append (encode_varint n []) rest, length-encode_varint n h)
