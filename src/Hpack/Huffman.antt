-- ===== src/Hpack/Huffman.antt =====
-- Hpack::HuffmanDecode: the trie of the code table, and the walk over the bits of the input.
pub mod Codes
pub mod Decode
use linux_highperf_proxy.Base.{
  ℕ, zero, suc, ◌+◌, ◌-◌, ◌*◌, ◌/◌, ◌%◌, ◌^◌, List, [], ◌∷◌, ◌++◌, Option, none, some, Bool, true,
  false, ◌&&◌, ltb, ◌==◌, if◌then◌else◌,
}
use linux_highperf_proxy.Hpack.Huffman.Codes.{huff_sym_table}

-- A HuffNode with its children in place of their indices; `empty` is the index -1.
pub data Trie : Type 0 where
  empty : Trie
  node : Option ℕ → Trie → Trie → Trie

-- Bit `31 - i` of the code, for i = 0 .. bits - 1.
unfoldable pub code_bits : ℕ → ℕ → ℕ → List Bool
code_bits zero i code = []
code_bits (suc bits) i code = (code / 2 ^ (31 - i) % 2 == 1) ∷ code_bits bits (suc i) code

-- One symbol of GetHuffTrie: the path of its code is made where it is missing, and its end named.
unfoldable pub insert : List Bool → ℕ → Trie → Trie
insert [] sym empty = node (some sym) empty empty
insert [] sym (node s l r) = node (some sym) l r
insert (false ∷ bits) sym empty = node none (insert bits sym empty) empty
insert (true ∷ bits) sym empty = node none empty (insert bits sym empty)
insert (false ∷ bits) sym (node s l r) = node s (insert bits sym l) r
insert (true ∷ bits) sym (node s l r) = node s l (insert bits sym r)

unfoldable pub build : List (ℕ × ℕ) → ℕ → Trie → Trie
build [] sym t = t
build ((bits, code) ∷ rest) sym t = build rest (suc sym) (insert (code_bits bits 0 code) sym t)

unfoldable pub huff_trie : Trie
unfolding build insert code_bits huff_sym_table
huff_trie = build huff_sym_table 0 (node none empty empty)

-- The variables of the loop. `node` is 0 exactly when `bitsSinceLastSymbol` is.
pub record Walk : Type 0 where
  pub cur : Trie
  pub bits_since : ℕ
  pub tail_ones : Bool
  pub out : List ℕ

unfoldable pub child : Trie → Bool → Trie
child empty bit = empty
child (node s l r) false = l
child (node s l r) true = r

-- What a round does with the node that it comes to.
unfoldable pub arrive : Trie → Trie → Walk → Option Walk
arrive root empty w = none
arrive root (node none l r) w = some (record w { cur = node none l r })
arrive root (node (some sym) l r) w =
    if sym == 256
    then none
    else some (record { cur = root; bits_since = 0; tail_ones = true; out = w.out ++ (sym ∷ []) })

-- One round of the inner loop.
unfoldable pub step : Trie → Bool → Walk → Option Walk
step root bit w =
    if ltb 30 (w.bits_since + 1)
    then none
    else arrive root (child w.cur bit)
        (record w { bits_since = w.bits_since + 1; tail_ones = w.tail_ones && bit })

unfoldable pub walk : Trie → List Bool → Walk → Option Walk
walk root [] w = some w
walk root (bit ∷ bits) w = elim (step root bit w) [ none ↦ none | some w' ↦ walk root bits w' ]

-- The bits of a byte, from 7 to 0.
abbrev pub byte_bits : ℕ → List Bool
byte_bits b =
    (b / 128 % 2 == 1)
    ∷ (b / 64 % 2 == 1)
    ∷ (b / 32 % 2 == 1)
    ∷ (b / 16 % 2 == 1)
    ∷ (b / 8 % 2 == 1)
    ∷ (b / 4 % 2 == 1)
    ∷ (b / 2 % 2 == 1)
    ∷ (b % 2 == 1)
    ∷ []

abbrev pub input_bits : List ℕ → List Bool
input_bits [] = []
input_bits (b ∷ bs) = byte_bits b ++ input_bits bs

-- The test of the padding: at most seven bits, all ones.
unfoldable pub finish : Walk → Option (List ℕ)
finish w =
    if w.bits_since == 0
    then some w.out
    else if ltb 7 w.bits_since
    then none
    else if w.tail_ones
    then some w.out
    else none

abbrev pub start : Trie → Walk
start root = record { cur = root; bits_since = 0; tail_ones = true; out = [] }

unfoldable pub huffman_decode : List ℕ → Option (List ℕ)
huffman_decode input = elim (walk huff_trie (input_bits input) (start huff_trie)) [
  | none ↦ none
  | some w ↦ finish w
]
