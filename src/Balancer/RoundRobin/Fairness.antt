-- ===== src/Balancer/RoundRobin/Fairness.antt =====
-- RoundRobinBalancer gives every node its turn, as often as its weight says.
use linux_highperf_proxy.Base.{
  ℕ, zero, suc, ◌+◌, ◌-◌, ◌*◌, ◌/◌, ◌%◌, ◌^◌, ◌≤◌, ◌<◌, ◌≡◌, refl, sym, ap, ◌∙◌, List, [], ◌∷◌,
  ◌++◌, Bool-cases, inl, inr, if◌then◌else◌, length, replicate, take, take_all, length-drop, drop,
  arith,
}
use linux_highperf_proxy.Base.Bytes.{bytes_eq}
use linux_highperf_proxy.Base.Maps.{bytes_eq_trans, bytes_eq_comm}
use native.Mathlib.Nat.{mul-add-mod_self_left, mod-eq_of_lt, mod-lt, div-add-mod, mul-suc}
use linux_highperf_proxy.Balancer.RoundRobin.{
  RoundRobin, erase_node, add_node, remove_node, at, get_node,
}

-- How often a node stands in a list.
pub count : List ℕ → List (List ℕ) → ℕ
count node [] = 0
count node (n ∷ ns) = if bytes_eq n node then count node ns + 1 else count node ns

count-append :
    (node : List ℕ) (xs ys : List (List ℕ)) → count node (xs ++ ys) ≡ count node xs + count node ys
unfolding count
count-append node [] ys = omega arith
count-append node (x ∷ xs) ys = ground (arith, count-append node xs ys)

count-replicate :
    (node j : List ℕ) (w : ℕ) → count j (replicate w node) ≡ (if bytes_eq node j then w else 0)
unfolding count
count-replicate node j zero = ground arith
count-replicate node j (suc w) = ground (arith, count-replicate node j w)

count-erase_node :
    (node j : List ℕ) (ns : List (List ℕ))
    → count j (erase_node node ns) ≡ (if bytes_eq node j then 0 else count j ns)
unfolding count erase_node
count-erase_node node j [] = ground arith
count-erase_node node j (n ∷ ns) = elim (Bool-cases (bytes_eq n node)) [
  | inl e ↦ ground (arith, e, bytes_eq_trans n node j e, count-erase_node node j ns)
  | inr e ↦ elim (Bool-cases (bytes_eq node j)) [
    | inl e' ↦ ground (
      arith,
      e,
      e',
      count-erase_node node j ns,
      bytes_eq_trans node j n e',
      bytes_eq_comm node n,
      bytes_eq_comm j n,
    )
    | inr e' ↦ ground (arith, e, e', count-erase_node node j ns)
  ]
]

-- After AddNode a node stands in the list as often as its new weight says, whether or not it was
-- there before, and every other node as often as before.
pub add_node-count :
    (node j : List ℕ) (weight : ℕ) (b : RoundRobin)
    → count j (add_node node weight b).nodes ≡ (if bytes_eq node j then weight else count j b.nodes)
unfolding add_node
add_node-count node j weight b = ground (
  arith,
  count-append j (erase_node node b.nodes) (replicate weight node),
  count-erase_node node j b.nodes,
  count-replicate node j weight,
)

-- RemoveNode takes every copy of a node and leaves all others.
pub remove_node-count :
    (node j : List ℕ) (b : RoundRobin)
    → count j (remove_node node b).nodes ≡ (if bytes_eq node j then 0 else count j b.nodes)
unfolding remove_node
remove_node-count node j b = count-erase_node node j b.nodes

-- What n calls in a row give.
pub turns : ℕ → RoundRobin → List (List ℕ)
turns zero b = []
turns (suc n) b = (get_node b).0 ∷ turns n (get_node b).1

-- `p` is a multiple of n.
abbrev IsMultiple : ℕ → ℕ → Type 0
IsMultiple n p = (r : ℕ) → r < n → (p + r) % n ≡ r

mul-IsMultiple : (n q : ℕ) → IsMultiple n (n * q)
mul-IsMultiple n q r h = mul-add-mod_self_left n q r ∙ mod-eq_of_lt h

drop-at : (r : ℕ) (ns : List (List ℕ)) → r < length ns → drop r ns ≡ at r ns ∷ drop (r + 1) ns
unfolding at
drop-at r [] h = absurd (omega arith)
drop-at zero (n ∷ ns) h = refl
drop-at (suc r) (n ∷ ns) h =
    let e : suc r + 1 ≡ suc (r + 1) = omega arith in
    drop-at r ns (omega arith) ∙ ap (λ i. at r ns ∷ drop i (n ∷ ns)) (sym e)

abbrev at_index : List (List ℕ) → ℕ → RoundRobin
at_index ns i = record { nodes = ns; index = i }

-- One call, where the index does not wrap.
get_node_any :
    (ns : List (List ℕ)) (i : ℕ)
    → 0 < length ns
    → i + 1 < 2 ^ 64
    → get_node (at_index ns i) ≡ (at (i % length ns) ns, at_index ns (i + 1))
unfolding get_node
get_node_any [] i some_nodes small = absurd (omega arith)
get_node_any (n ∷ ns) i some_nodes small =
    let e : (i + 1) % 2 ^ 64 ≡ i + 1 = omega arith in
    ap (λ j. (at (i % length (n ∷ ns)) (n ∷ ns), at_index (n ∷ ns) j)) e

-- Calls that do not come to the end of the list.
turns_ahead :
    (k p r : ℕ) (ns : List (List ℕ))
    → IsMultiple (length ns) p
    → r + k ≤ length ns
    → p + r + k < 2 ^ 64
    → turns k (at_index ns (p + r)) ≡ take k (drop r ns)
unfolding turns
turns_ahead zero p r ns m h small = refl
turns_ahead (suc k) p r ns m h small =
    let step = get_node_any ns (p + r) (omega arith) (omega arith) in
    let next : p + r + 1 ≡ p + (r + 1) = omega arith in
    let later = turns_ahead k p (r + 1) ns m (omega arith) (omega arith) in
    rw (step, m r (omega arith), next, later, drop-at r ns (omega arith)) refl

-- The calls after some others.
turns_after :
    (k m i : ℕ) (ns : List (List ℕ))
    → 0 < length ns
    → i + k < 2 ^ 64
    → turns (k + m) (at_index ns i) ≡ turns k (at_index ns i) ++ turns m (at_index ns (i + k))
unfolding turns
turns_after zero m i ns some_nodes small =
    let e : 0 + m ≡ m = omega arith in
    let e' : i + 0 ≡ i = omega arith in
    ap (λ j. turns j (at_index ns i)) e ∙ ap (λ j. turns m (at_index ns j)) (sym e')
turns_after (suc k) m i ns some_nodes small =
    let e : suc k + m ≡ suc (k + m) = omega arith in
    let e' : i + 1 + k ≡ i + suc k = omega arith in
    let step = get_node_any ns i some_nodes (omega arith) in
    ap (λ j. turns j (at_index ns i)) e
    ∙ rw step (
        ap (◌∷◌ (at (i % length ns) ns)) (
          turns_after k m (i + 1) ns some_nodes (omega arith)
          ∙ ap (λ j. turns k (at_index ns (i + 1)) ++ turns m (at_index ns j)) e'))

-- As many calls in a row as the list has entries, from any index that does not wrap meanwhile, give
-- the list itself, rotated: each entry is taken exactly once, in the order of the list.
pub turns_rotate :
    (b : RoundRobin)
    → 0 < length b.nodes
    → b.index + length b.nodes < 2 ^ 64
    → turns (length b.nodes) b
      ≡ drop (b.index % length b.nodes) b.nodes ++ take (b.index % length b.nodes) b.nodes
turns_rotate b some_nodes small =
    let ns = b.nodes in
    let n = length ns in
    let p = n * (b.index / n) in
    let p' = n * suc (b.index / n) in
    let r = b.index % n in
    let split : b.index ≡ p + r = sym (div-add-mod b.index n) in
    let less : r < n = mod-lt b.index some_nodes in
    let whole : n ≡ (n - r) + r = omega (arith, less) in
    let up : p' ≡ p + n = mul-suc n (b.index / n) in
    let next : p + r + (n - r) ≡ p' + 0 = omega (arith, up, less) in
    let ahead =
      turns_ahead (n - r) p r ns (mul-IsMultiple n (b.index / n)) (omega (arith, less))
        (omega (arith, split, small, less)) in
    let again =
      turns_ahead r p' 0 ns (mul-IsMultiple n (suc (b.index / n))) (omega (arith, less))
        (omega (arith, up, split, small, less)) in
    let all : take (n - r) (drop r ns) ≡ drop r ns =
      take_all (n - r) (drop r ns) (omega (arith, length-drop r ns)) in
    ap (λ k. turns k b) whole
    ∙ ap (λ i. turns (n - r + r) (at_index ns i)) split
    ∙ turns_after (n - r) r (p + r) ns some_nodes (omega (arith, split, small, less))
    ∙ ap (λ i. turns (n - r) (at_index ns (p + r)) ++ turns r (at_index ns i)) next
    ∙ ap (λ xs. xs ++ turns r (at_index ns (p' + 0))) (ahead ∙ all)
    ∙ ap (◌++◌ (drop r ns)) again
