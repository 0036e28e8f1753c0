-- ===== src/Hpack/Codec/RoundTrip.antt =====
-- A header list that EncodeNoIndex writes is read back by Decode, and the table is not touched.
use linux_highperf_proxy.Base.{
  ℕ, zero, suc, ◌+◌, ◌%◌, ◌^◌, ◌≤◌, ◌<◌, ◌≡◌, sym, ap, ◌∙◌, subst, List, [], ◌∷◌, ◌++◌, some,
  length, length-append, drop, take-length-append, drop-length-append, append_assoc, append-nil,
  All, false, arith,
}
use linux_highperf_proxy.Base.Outcome.{ok}
use linux_highperf_proxy.Hpack.StaticTable.{Header, header}
use linux_highperf_proxy.Hpack.Table.{Table}
use linux_highperf_proxy.Hpack.Integer.{decode_integer, encode_integer}
use linux_highperf_proxy.Hpack.Integer.RoundTrip.{
  decode_integer-encode_integer, encode_integer-append, encode_integer_head, encode_integer_zero,
  decode_integer_zero,
}
use linux_highperf_proxy.Hpack.Codec.{
  decode_string, encode_string_raw, encode_no_index, field_name, decode_literal, decode_field,
  decode_loop, decode,
}

-- What EncodeStringRaw appends.
encode_string_raw-append :
    (out s : List ℕ) → encode_string_raw out s ≡ out ++ encode_string_raw [] s
unfolding encode_string_raw
encode_string_raw-append out s =
    rw (encode_integer-append out (length s % 2 ^ 32) 7 0)
      (append_assoc out (encode_integer [] (length s % 2 ^ 32) 7 0) s)

drop-append-append : (xs ys zs : List ℕ) → drop (length xs) ((xs ++ ys) ++ zs) ≡ ys ++ zs
drop-append-append xs ys zs = rw (append_assoc xs ys zs) (drop-length-append xs (ys ++ zs))

-- A string whose length prefix has been read, and whose first byte has the top bit clear.
decode_string_plain :
    (b : ℕ) (bs s rest : List ℕ)
    → b < 128
    → decode_integer (b ∷ bs ++ (s ++ rest)) 7 ≡ some (length s, suc (length bs))
    → decode_string (b ∷ bs ++ (s ++ rest)) ≡ some (s, suc (length bs) + length s)
unfolding decode_string
decode_string_plain b bs s rest top int = ground (
  arith,
  length-append bs (s ++ rest),
  length-append s rest,
  drop-length-append bs (s ++ rest),
  take-length-append s rest,
)

encode_string_raw_lem :
    (s : List ℕ)
    → length s < 2 ^ 32
    → encode_string_raw [] s ≡ encode_integer [] (length s) 7 0 ++ s
unfolding encode_string_raw
encode_string_raw_lem s h = let n : length s % 2 ^ 32 ≡ length s = omega arith in rw n

decode_string_assoc :
    (xs s rest : List ℕ) → decode_string ((xs ++ s) ++ rest) ≡ decode_string (xs ++ (s ++ rest))
decode_string_assoc xs s rest = ap decode_string (append_assoc xs s rest)

-- A string of less than 2^32 bytes is read back, whatever bytes follow.
pub decode_string-encode_string_raw :
    (s rest : List ℕ)
    → length s < 2 ^ 32
    → decode_string (encode_string_raw [] s ++ rest) ≡ some (s, length (encode_string_raw [] s))
decode_string-encode_string_raw s rest h =
    let (b, bs, e, top) = encode_integer_head (length s) in
    let int =
      decode_integer-encode_integer (length s) 7 (s ++ rest) h (omega arith) (omega arith) in
    let int' : decode_integer (b ∷ bs ++ (s ++ rest)) 7 ≡ some (length s, suc (length bs)) =
      subst (λ xs. decode_integer (xs ++ (s ++ rest)) 7 ≡ some (length s, length xs)) e int in
    rw (encode_string_raw_lem s h, e)
      (decode_string_assoc (b ∷ bs) s rest
        ∙ decode_string_plain b bs s rest top int'
        ∙ ground (arith, length-append bs s))

-- One header field as EncodeNoIndex writes it.
encode_header : Header → List ℕ
encode_header h = 0 ∷ encode_string_raw [] h.name ++ encode_string_raw [] h.value

encode_no_index_cons :
    (h : Header) (hs : List Header) (out : List ℕ)
    → encode_no_index (h ∷ hs) out ≡ encode_no_index hs (out ++ encode_header h)
unfolding encode_no_index encode_header
encode_no_index_cons h hs out = rw (
  encode_integer_zero out,
  encode_string_raw-append (out ++ (0 ∷ [])) h.name,
  encode_string_raw-append _ h.value,
  append_assoc,
  append_assoc,
)

-- The name and the value of a header have a length that fits a uint32.
abbrev pub Fits : Header → Type 0
Fits h = (length h.name < 2 ^ 32) × (length h.value < 2 ^ 32)

decode_literal_new_name :
    (t : Table) (xs ys rest n v : List ℕ)
    → decode_string (xs ++ (ys ++ rest)) ≡ some (n, length xs)
    → decode_string (ys ++ rest) ≡ some (v, length ys)
    → decode_literal t (0 ∷ xs ++ (ys ++ rest)) 4 false
      ≡ some (t, header n v ∷ [], 1 + length xs + length ys)
unfolding decode_literal field_name
decode_literal_new_name t xs ys rest n v en ev =
    let one : 1 + length xs ≡ suc (length xs) = omega arith in
    rw (decode_integer_zero (xs ++ (ys ++ rest)), decode_literal)
      (rw en (rw (one, drop-length-append xs (ys ++ rest)) (rw ev)))

decode_field-encode_header :
    (t : Table) (h : Header) (rest : List ℕ)
    → Fits h
    → decode_field t 0 (encode_header h ++ rest) ≡ some (t, h ∷ [], length (encode_header h))
unfolding decode_field encode_header
decode_field-encode_header t h rest (fn, fv) =
    let xs = encode_string_raw [] h.name in
    let ys = encode_string_raw [] h.value in
    rw (append_assoc xs ys rest) (
      decode_literal_new_name t xs ys rest h.name h.value
        (decode_string-encode_string_raw h.name (ys ++ rest) fn)
        (decode_string-encode_string_raw h.value rest fv)
      ∙ ground (arith, length-append xs ys))

-- The whole block.
encode_headers : List Header → List ℕ
encode_headers [] = []
encode_headers (h ∷ hs) = encode_header h ++ encode_headers hs

encode_no_index-encode_headers :
    (hs : List Header) (out : List ℕ) → encode_no_index hs out ≡ out ++ encode_headers hs
unfolding encode_headers
encode_no_index-encode_headers [] out = unfold encode_no_index in sym (append-nil out)
encode_no_index-encode_headers (h ∷ hs) out =
    encode_no_index_cons h hs out
    ∙ encode_no_index-encode_headers hs (out ++ encode_header h)
    ∙ append_assoc out (encode_header h) (encode_headers hs)

decode_loop_step :
    (fuel : ℕ) (t t' : Table) (b : ℕ) (bs rest : List ℕ) (hs out : List Header)
    → decode_field t b (b ∷ bs ++ rest) ≡ some (t', hs, suc (length bs))
    → decode_loop (suc fuel) t (b ∷ bs ++ rest) out ≡ decode_loop fuel t' rest (out ++ hs)
unfolding decode_loop
decode_loop_step fuel t t' b bs rest hs out e =
    rw (e, decode_loop) (rw (drop-length-append bs rest))

decode_loop-encode_headers :
    (fuel : ℕ) (t : Table) (hs out : List Header)
    → All Fits hs
    → length (encode_headers hs) ≤ fuel
    → decode_loop fuel t (encode_headers hs) out ≡ (t, ok (out ++ hs))
unfolding encode_headers encode_header
decode_loop-encode_headers fuel t [] out fits le =
    unfold decode_loop in ap (λ l. (t, ok l)) (sym (append-nil out))
decode_loop-encode_headers zero t (h ∷ hs) out fits le = absurd (omega arith)
decode_loop-encode_headers (suc fuel) t (h ∷ hs) out (fit, fits) le =
    let body = encode_string_raw [] h.name ++ encode_string_raw [] h.value in
    decode_loop_step fuel t t 0 body (encode_headers hs) (h ∷ []) out
      (decode_field-encode_header t h (encode_headers hs) fit)
    ∙ decode_loop-encode_headers fuel t hs (out ++ (h ∷ [])) fits
        (omega (arith, length-append body (encode_headers hs)))
    ∙ ap (λ l. (t, ok l)) (append_assoc out (h ∷ []) hs)

-- A list of headers whose names and values are shorter than 2^32 bytes is read back, with the
-- decoder's dynamic table as it was.
pub decode-encode_no_index :
    (t : Table) (hs : List Header) → All Fits hs → decode t (encode_no_index hs []) ≡ (t, ok hs)
unfolding decode
decode-encode_no_index t hs fits =
    rw (encode_no_index-encode_headers hs [])
      (decode_loop-encode_headers (length (encode_headers hs)) t hs [] fits (omega arith))
