-- ===== src/Hpack/Huffman/Decode.antt =====
-- The Huffman decoder reads back every string from the code of RFC 7541.
use linux_highperf_proxy.Base.{
  ℕ, zero, suc, ◌+◌, ◌≤◌, ◌<◌, ◌≡◌, ◌≢◌, refl, ap, ◌∙◌, List, [], ◌∷◌, ◌++◌, none, some,
  Option-cases, inl, inr, Bool, true, false, ◌&&◌, leb, ◌==◌, ==_iff, ◌⊎◌, length, replicate,
  get_elem?, get_elem?-some, subst, append_assoc, append-nil, All, arith,
}
use linux_highperf_proxy.Hpack.Huffman.Codes.{huff_sym_table}
use native.Mathlib.Nat.{zero-add}
use linux_highperf_proxy.Base.Bytes.{IsByte}
use linux_highperf_proxy.Hpack.Huffman.{
  Trie, empty, node, code_bits, huff_trie, Walk, child, arrive, step, walk, input_bits, finish,
  start, huffman_decode,
}

-- The bits lead from a node to the symbol, and pass no other on the way.
leads_via : Trie → (Trie → Bool) → List Bool → ℕ → Bool
leads_via empty rec bits x = false
leads_via (node none l r) rec bits x = rec (node none l r)
leads_via (node (some y) l r) rec [] x = y == x
leads_via (node (some y) l r) rec (b ∷ bits) x = false

leads : Trie → List Bool → ℕ → Bool
unfolding leads_via
leads t [] x = false
leads t (b ∷ bits) x = leads_via (child t b) (λ c. leads c bits x) bits x

abbrev Via : Trie → (Trie → Bool) → List Bool → ℕ → Type 0
Via c rec bits x =
    ((l : Trie) × (r : Trie) × (c ≡ node none l r) × (rec (node none l r) ≡ true))
    ⊎ ((l : Trie) × (r : Trie) × (c ≡ node (some x) l r) × (bits ≡ []))

leads_via-Via :
    (c : Trie) (rec : Trie → Bool) (bits : List Bool) (x : ℕ)
    → leads_via c rec bits x ≡ true
    → Via c rec bits x
unfolding leads_via
leads_via-Via empty rec bits x h = cc
leads_via-Via (node none l r) rec bits x h = inl (l, r, refl, h)
leads_via-Via (node (some y) l r) rec [] x h =
    inr (l, r, ap (λ z. node (some z) l r) ((==_iff y x).0 h), refl)
leads_via-Via (node (some y) l r) rec (b ∷ bits) x h = cc

-- Every entry of the table is a path of at most 30 bits to its symbol.
check_table : Trie → List (ℕ × ℕ) → ℕ → Bool
check_table t [] x = true
check_table t ((bits, code) ∷ rest) x =
    leb bits 30 && leads t (code_bits bits 0 code) x && check_table t rest (suc x)

table_checks : check_table huff_trie huff_sym_table 0 ≡ true
unfolding check_table leads huff_trie huff_sym_table code_bits child
table_checks = refl

-- The code of a symbol, as bits.
unfoldable pub code_of : ℕ → List Bool
code_of x = elim (get_elem? huff_sym_table x) [
  | none ↦ []
  | some (bits, code) ↦ code_bits bits 0 code
]

-- A string under RFC 7541's code, without padding.
unfoldable pub encode_bits : List ℕ → List Bool
encode_bits [] = []
encode_bits (x ∷ xs) = code_of x ++ encode_bits xs

table_leads :
    (t : Trie) (table : List (ℕ × ℕ)) (x i : ℕ) {bits code : ℕ}
    → check_table t table x ≡ true
    → get_elem? table i ≡ some (bits, code)
    → (bits ≤ 30) × (leads t (code_bits bits 0 code) (x + i) ≡ true)
unfolding check_table
table_leads t [] x i h e = cc
table_leads t ((b, c) ∷ rest) x zero {bits} {code} h e =
    let n : x + zero ≡ x = omega arith in rw n (ground arith)
table_leads t ((b, c) ∷ rest) x (suc i) {bits} {code} h e =
    let n : x + suc i ≡ suc x + i = omega arith in
    rw n (table_leads t rest (suc x) i (ground arith) e)

length-code_bits : (bits i code : ℕ) → length (code_bits bits i code) ≡ bits
unfolding code_bits
length-code_bits zero i code = refl
length-code_bits (suc bits) i code = ap suc (length-code_bits bits (suc i) code)

walk-append :
    (t : Trie) (xs ys : List Bool) (w : Walk) {w' : Walk}
    → walk t xs w ≡ some w'
    → walk t (xs ++ ys) w ≡ walk t ys w'
unfolding walk
walk-append t [] ys w e = ground arith
walk-append t (x ∷ xs) ys w e = elim (Option-cases (step t x w)) [
  | inl n ↦ cc (rw (n, walk) at e)
  | inr (w1, s) ↦ rw (s, walk) (walk-append t xs ys w1 (rw (s, walk) at e))
]

-- The two kinds of rounds.
step_inner :
    (root l r : Trie) (b : Bool) (w : Walk)
    → child w.cur b ≡ node none l r
    → w.bits_since + 1 ≤ 30
    → step root b w
      ≡ some (record {
        cur = node none l r;
        bits_since = w.bits_since + 1;
        tail_ones = w.tail_ones && b;
        out = w.out;
      })
unfolding step arrive
step_inner root l r b w e le = ground (arith, e)

step_symbol :
    (root l r : Trie) (b : Bool) (x : ℕ) (w : Walk)
    → child w.cur b ≡ node (some x) l r
    → w.bits_since + 1 ≤ 30
    → x ≢ 256
    → step root b w
      ≡ some (record { cur = root; bits_since = 0; tail_ones = true; out = w.out ++ (x ∷ []) })
unfolding step arrive
step_symbol root l r b x w e le ne = ground (arith, e)

walk_nil : (root : Trie) (w : Walk) → walk root [] w ≡ some w
unfolding walk
walk_nil root w = refl

walk-step :
    (root : Trie) (b : Bool) (bits : List Bool) (w w' : Walk)
    → step root b w ≡ some w'
    → walk root (b ∷ bits) w ≡ walk root bits w'
unfolding walk
walk-step root b bits w w' e = rw (e, walk)

-- Bits that lead to a symbol other than EOS make the walk emit it and go back to the root.
walk-leads :
    (root : Trie) (bits : List Bool) (x : ℕ) (w : Walk)
    → leads w.cur bits x ≡ true
    → w.bits_since + length bits ≤ 30
    → x ≢ 256
    → walk root bits w
      ≡ some (record { cur = root; bits_since = 0; tail_ones = true; out = w.out ++ (x ∷ []) })
unfolding leads
walk-leads root [] x w h le ne = cc
walk-leads root (b ∷ bits) x w h le ne =
    elim (leads_via-Via (child w.cur b) (λ c. leads c bits x) bits x h) [
      | inl (l, r, e, h') ↦
          walk-step root b bits w _ (step_inner root l r b w e (omega arith))
          ∙ walk-leads root bits x _ h' (omega arith) ne
      | inr (l, r, e, none_left) ↦
          walk-step root b bits w _ (step_symbol root l r b x w e (omega arith) ne)
          ∙ rw none_left (walk_nil root _)
    ]

table_length : length huff_sym_table ≡ 257
unfolding huff_sym_table
table_length = refl

walk_entry :
    (x bits code : ℕ) (w : Walk)
    → IsByte x
    → w.cur ≡ huff_trie
    → w.bits_since ≡ 0
    → get_elem? huff_sym_table x ≡ some (bits, code)
    → walk huff_trie (code_bits bits 0 code) w
      ≡ some (record { cur = huff_trie; bits_since = 0; tail_ones = true; out = w.out ++ (x ∷ []) })
walk_entry x bits code w h at_root none_since e =
    let (short, path) = table_leads huff_trie huff_sym_table 0 x table_checks e in
    walk-leads huff_trie (code_bits bits 0 code) x w
      (rw at_root (subst (λ n. leads huff_trie (code_bits bits 0 code) n ≡ true) (zero-add x) path))
      (rw (length-code_bits bits 0 code) (omega arith)) (omega arith)

-- The code of each byte leads to it.
walk-code_of :
    (x : ℕ) (w : Walk)
    → IsByte x
    → w.cur ≡ huff_trie
    → w.bits_since ≡ 0
    → walk huff_trie (code_of x) w
      ≡ some (record { cur = huff_trie; bits_since = 0; tail_ones = true; out = w.out ++ (x ∷ []) })
unfolding code_of
walk-code_of x w h at_root none_since =
    let (entry, e) = get_elem?-some huff_sym_table x (rw table_length (omega arith)) in
    rw (e, code_of) (walk_entry x entry.0 entry.1 w h at_root none_since e)

-- The walk emits an encoded string, and is at the root again.
walk-encode_bits :
    (xs : List ℕ) (w : Walk)
    → All IsByte xs
    → w.cur ≡ huff_trie
    → w.bits_since ≡ 0
    → w.tail_ones ≡ true
    → walk huff_trie (encode_bits xs) w
      ≡ some (record { cur = huff_trie; bits_since = 0; tail_ones = true; out = w.out ++ xs })
unfolding encode_bits
walk-encode_bits [] w h at_root none_since ones = unfold walk in ground (arith, append-nil w.out)
walk-encode_bits (x ∷ xs) w (hx, hxs) at_root none_since ones =
    walk-append huff_trie (code_of x) (encode_bits xs) w (walk-code_of x w hx at_root none_since)
    ∙ walk-encode_bits xs _ hxs refl refl refl
    ∙ ground (arith, append_assoc w.out (x ∷ []) xs)

-- Up to seven ones after the last symbol are padding.
finish_padding :
    (k : ℕ) (out : List ℕ)
    → k < 8
    → (elim (walk huff_trie (replicate k true) (record (start huff_trie) { out = out })) [
      | none ↦ none
      | some w ↦ finish w
    ])
      ≡ some out
unfolding walk step arrive child finish huff_trie
finish_padding zero out h = refl
finish_padding (suc zero) out h = refl
finish_padding (suc (suc zero)) out h = refl
finish_padding (suc (suc (suc zero))) out h = refl
finish_padding (suc (suc (suc (suc zero)))) out h = refl
finish_padding (suc (suc (suc (suc (suc zero))))) out h = refl
finish_padding (suc (suc (suc (suc (suc (suc zero)))))) out h = refl
finish_padding (suc (suc (suc (suc (suc (suc (suc zero))))))) out h = refl
finish_padding (suc (suc (suc (suc (suc (suc (suc (suc k)))))))) out h = absurd (omega arith)

-- A byte string whose bits are the code of a string, padded with fewer than eight ones, decodes to
-- that string.
pub huffman_decode-encode_bits :
    (input s : List ℕ) (k : ℕ)
    → All IsByte s
    → k < 8
    → input_bits input ≡ encode_bits s ++ replicate k true
    → huffman_decode input ≡ some s
unfolding huffman_decode
huffman_decode-encode_bits input s k bytes small e =
    rw (e, huffman_decode)
      (rw
        (
          walk-append huff_trie (encode_bits s) (replicate k true) (start huff_trie)
              (walk-encode_bits s (start huff_trie) bytes refl refl refl),
          huffman_decode,
        )
        (finish_padding k s small))
