-- ===== src/Balancer/ConsistentHash.antt =====
-- src/balancer/ConsistentHashBalancer.cpp: the hash ring. A weight or a number of virtual nodes that
-- is negative makes an empty loop, so 0 stands for it; the product is below 2^31.
pub mod Stability
use linux_highperf_proxy.Base.{
  ℕ, zero, suc, ◌+◌, ◌*◌, ◌/◌, ◌%◌, ◌^◌, List, [], ◌∷◌, ◌++◌, Option, none, some, Bool, true, false,
  ltb, leb, ◌==◌, if◌then◌else◌,
}
use linux_highperf_proxy.Base.Bytes.{bytes_eq}
use linux_highperf_proxy.Base.Decimal.{to_string}
use linux_highperf_proxy.Base.Maps.{find, put, remove}

-- `^` on the lowest `bits` bits.
unfoldable pub xor : ℕ → ℕ → ℕ → ℕ
xor zero a b = 0
xor (suc bits) a b = (a + b) % 2 + 2 * xor bits (a / 2) (b / 2)

-- FNV-1a: uint32_t throughout.
unfoldable pub fnv_loop : List ℕ → ℕ → ℕ
fnv_loop [] h = h
fnv_loop (c ∷ key) h = fnv_loop key (xor 32 h c * 16777619 % 2 ^ 32)

unfoldable pub hash : List ℕ → ℕ
hash key = fnv_loop key 2166136261

-- ring_, a std::map: its entries in the order of their hashes.
abbrev pub Ring : Type 0
Ring = List (ℕ × List ℕ)

-- ring_[h] = node
unfoldable pub ring_put : ℕ → List ℕ → Ring → Ring
ring_put h node [] = (h, node) ∷ []
ring_put h node ((i, n) ∷ ring) =
    if ltb h i
    then (h, node) ∷ (i, n) ∷ ring
    else if h == i
    then (h, node) ∷ ring
    else (i, n) ∷ ring_put h node ring

-- ring_.lower_bound(h): the node of the first hash that is not below h.
unfoldable pub lower_bound : ℕ → Ring → Option (List ℕ)
lower_bound h [] = none
lower_bound h ((i, n) ∷ ring) = if leb h i then some n else lower_bound h ring

-- The entries of a node leave the ring.
unfoldable pub ring_erase : List ℕ → Ring → Ring
ring_erase node [] = []
ring_erase node ((i, n) ∷ ring) =
    if bytes_eq n node then ring_erase node ring else (i, n) ∷ ring_erase node ring

-- node#i
unfoldable pub virtual_node : List ℕ → ℕ → List ℕ
virtual_node node i = node ++ (b'#' ∷ to_string i)

-- The virtual nodes i, i + 1, ..., `left` of them.
unfoldable pub add_virtual : ℕ → ℕ → List ℕ → Ring → Ring
add_virtual zero i node ring = ring
add_virtual (suc left) i node ring =
    add_virtual left (i + 1) node (ring_put (hash (virtual_node node i)) node ring)

pub record ConsistentHash : Type 0 where
  pub virtual_per_weight : ℕ
  pub ring : Ring
  pub weights : List (List ℕ × ℕ)

unfoldable pub new_consistent_hash : ℕ → ConsistentHash
new_consistent_hash n = record { virtual_per_weight = n; ring = []; weights = [] }

unfoldable pub remove_node : List ℕ → ConsistentHash → ConsistentHash
remove_node node b = record b { ring = ring_erase node b.ring; weights = remove node b.weights }

unfoldable pub place_node : List ℕ → ℕ → ConsistentHash → ConsistentHash
place_node node weight b = record b {
  weights = put node weight b.weights;
  ring = add_virtual (weight * b.virtual_per_weight) 0 node b.ring;
}

-- A node that is there already is removed first.
unfoldable pub add_node : List ℕ → ℕ → ConsistentHash → ConsistentHash
add_node node weight b = elim (find node b.weights) [
  | none ↦ place_node node weight b
  | some w ↦ place_node node weight (remove_node node b)
]

-- Past the last hash the ring starts again.
unfoldable pub successor : ℕ → Ring → List ℕ
successor h [] = []
successor h ((i, n) ∷ ring) = elim (lower_bound h ((i, n) ∷ ring)) [ none ↦ n | some m ↦ m ]

unfoldable pub get_node : List ℕ → ConsistentHash → List ℕ
get_node key b = successor (hash key) b.ring
