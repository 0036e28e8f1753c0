-- ===== src/Hpack/Codec/Safety.antt =====
-- Hpack::Decode on any input, well formed or not: it returns, and keeps the dynamic table valid.
use linux_highperf_proxy.Base.{
  ℕ, zero, suc, ◌+◌, ◌/◌, ◌%◌, ◌≤◌, ◌<◌, ◌≡◌, ◌≢◌, refl, List, [], ◌∷◌, ◌++◌, Option, none, some,
  ◌>>=◌, >>=-eq-some, Option-cases, inl, inr, length, length-drop, drop, Bool, true, false, not,
  ◌&&◌, if◌then◌else◌, subst, ◌==◌, arith,
}
use linux_highperf_proxy.Base.Outcome.{stuck}
use linux_highperf_proxy.Hpack.StaticTable.{Header, header}
use linux_highperf_proxy.Hpack.Table.{Table, add_dynamic, get_by_index}
use linux_highperf_proxy.Hpack.Table.Evict.{IsValid, add_dynamic-IsValid, update_max_size-IsValid}
use linux_highperf_proxy.Hpack.Integer.{decode_integer}
use linux_highperf_proxy.Hpack.Integer.RoundTrip.{decode_integer_bounds, decode_integer_word}
use linux_highperf_proxy.Hpack.Codec.{
  decode_string, field_name, decode_literal, decode_indexed, decode_size_update, decode_field,
  decode_loop, decode,
}

-- A field that decodes takes a byte at least, and keeps the table valid.
abbrev Steps : Option (Table × List Header × ℕ) → Type 0
Steps none = Unit
Steps (some (t, hs, used)) = IsValid t × (0 < used)

Steps-bind {ℓ} :
    {A : Type ℓ} (m : Option A) (f : A → Option (Table × List Header × ℕ))
    → ((a : A) → m ≡ some a → Steps (f a))
    → Steps (m >>= f)
Steps-bind none f h = tt
Steps-bind (some a) f h = h a refl

decode_indexed-Steps : (t : Table) (rest : List ℕ) → IsValid t → Steps (decode_indexed t rest)
unfolding decode_indexed
decode_indexed-Steps t rest v = Steps-bind (decode_integer rest 7) _ λ (idx, used) e.
    Steps-bind (get_by_index idx t) _ λ entry _. (v, (decode_integer_bounds rest 7 idx used e).0)

decode_size_update-Steps :
    (t : Table) (rest : List ℕ) → IsValid t → Steps (decode_size_update t rest)
unfolding decode_size_update
decode_size_update-Steps t rest v = Steps-bind (decode_integer rest 5) _ λ (size, used) e. (
  update_max_size-IsValid size t (decode_integer_word rest 5 size used (omega arith) e) v,
  (decode_integer_bounds rest 5 size used e).0,
)

decode_literal-Steps :
    (t : Table) (rest : List ℕ) (prefix : ℕ) (add : Bool)
    → IsValid t
    → Steps (decode_literal t rest prefix add)
unfolding decode_literal
decode_literal-Steps t rest prefix add v =
    Steps-bind (decode_integer rest prefix) _ λ (idx, used) e.
      Steps-bind (field_name t idx (drop used rest)) _ λ (name, c) _.
        Steps-bind (decode_string (drop (used + c) rest)) _ λ (value, c') _. (
          added add (header name value),
          omega (arith, decode_integer_bounds rest prefix idx used e),
        )
  where
    added : (add : Bool) (h : Header) → IsValid (if add then add_dynamic h t else t)
    added true h = add_dynamic-IsValid h t v
    added false h = v

decode_field-Steps : (t : Table) (b : ℕ) (rest : List ℕ) → IsValid t → Steps (decode_field t b rest)
unfolding decode_field
decode_field-Steps t b rest v =
    let inc_index = b / 64 % 2 == 1 in
    let never_index = b / 16 % 2 == 1 in
    let add = inc_index && not never_index in
    ground (
      arith,
      decode_indexed-Steps t rest v,
      decode_size_update-Steps t rest v,
      decode_literal-Steps t rest 6 add v,
      decode_literal-Steps t rest 4 add v,
    )

Steps-some :
    (o : Option (Table × List Header × ℕ)) {t : Table} {hs : List Header} {used : ℕ}
    → Steps o
    → o ≡ some (t, hs, used)
    → IsValid t × (0 < used)
Steps-some o s e = subst Steps e s

decode_loop-IsValid :
    (fuel : ℕ) (t : Table) (input : List ℕ) (out : List Header)
    → IsValid t
    → IsValid (decode_loop fuel t input out).0
unfolding decode_loop
decode_loop-IsValid fuel t [] out v = v
decode_loop-IsValid zero t (b ∷ rest) out v = v
decode_loop-IsValid (suc fuel) t (b ∷ rest) out v =
    elim (Option-cases (decode_field t b (b ∷ rest))) [
      | inl n ↦ rw (n, decode_loop) v
      | inr ((t', hs, used), e) ↦
          let s =
            Steps-some (decode_field t b (b ∷ rest)) (decode_field-Steps t b (b ∷ rest) v) e in
          rw (e, decode_loop) (decode_loop-IsValid fuel t' (drop used (b ∷ rest)) (out ++ hs) s.0)
    ]

-- Whatever bytes arrive, and also where the block is refused halfway, Decode leaves the dynamic
-- table with a size that is the sum of its entries and within the maximum.
pub decode-IsValid : (t : Table) (input : List ℕ) → IsValid t → IsValid (decode t input).0
unfolding decode
decode-IsValid t input v = decode_loop-IsValid (length input) t input [] v

decode_loop-ne-stuck :
    (fuel : ℕ) (t : Table) (input : List ℕ) (out : List Header)
    → IsValid t
    → length input ≤ fuel
    → (decode_loop fuel t input out).1 ≢ stuck
unfolding decode_loop
decode_loop-ne-stuck fuel t [] out v le = λ e. cc
decode_loop-ne-stuck zero t (b ∷ rest) out v le = absurd (omega arith)
decode_loop-ne-stuck (suc fuel) t (b ∷ rest) out v le =
    elim (Option-cases (decode_field t b (b ∷ rest))) [
      | inl n ↦ rw (n, decode_loop) (λ e. cc)
      | inr ((t', hs, used), e) ↦
          let s =
            Steps-some (decode_field t b (b ∷ rest)) (decode_field-Steps t b (b ∷ rest) v) e in
          rw (e, decode_loop)
            (decode_loop-ne-stuck fuel t' (drop used (b ∷ rest)) (out ++ hs) s.0
              (omega (arith, length-drop used (b ∷ rest), s.1)))
    ]

-- The decoder returns on every input.
pub decode-ne-stuck : (t : Table) (input : List ℕ) → IsValid t → (decode t input).1 ≢ stuck
unfolding decode
decode-ne-stuck t input v = decode_loop-ne-stuck (length input) t input [] v (omega arith)

literal_keeps_table :
    (t : Table) (rest : List ℕ) (prefix : ℕ) {t' : Table} {hs : List Header} {used : ℕ}
    → decode_literal t rest prefix false ≡ some (t', hs, used)
    → t' ≡ t
unfolding decode_literal
literal_keeps_table t rest prefix e =
    let ((idx, used), _, e1) = >>=-eq-some (decode_integer rest prefix) _ e in
    let ((name, c), _, e2) = >>=-eq-some (field_name t idx (drop used rest)) _ e1 in
    let ((value, c'), _, e3) = >>=-eq-some (decode_string (drop (used + c) rest)) _ e2 in cc e3

-- A literal field with incremental indexing (01xxxxxx) whose index has the bit 0x10, such as
-- accept-encoding (16) or user-agent (58), is taken for a never-indexed one: where it decodes, the
-- dynamic table stays as it was, though RFC 7541, 6.2.1 adds the field to it.
pub incremental_not_added :
    (t : Table) (b : ℕ) (rest : List ℕ) {t' : Table} {hs : List Header} {used : ℕ}
    → 64 ≤ b
    → b < 128
    → b / 16 % 2 ≡ 1
    → decode_field t b rest ≡ some (t', hs, used)
    → t' ≡ t
unfolding decode_field
incremental_not_added t b rest {t'} {hs} {used} lo hi never e =
    let e' : decode_literal t rest 6 false ≡ some (t', hs, used) = ground arith in
    literal_keeps_table t rest 6 e'
