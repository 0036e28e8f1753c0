-- ===== src/Balancer/RoundRobin.antt =====
-- src/balancer/RoundRobinBalancer.cpp: a node stands in the list once for each unit of its weight. A
-- weight that is not positive adds nothing, so 0 stands for those below it.
pub mod Fairness
use linux_highperf_proxy.Base.{
  ℕ, zero, suc, ◌+◌, ◌%◌, ◌^◌, List, [], ◌∷◌, ◌++◌, Option, none, some, if◌then◌else◌, length,
  get_elem?, replicate,
}
use linux_highperf_proxy.Base.Bytes.{bytes_eq}

-- nodes_ and index_.
pub record RoundRobin : Type 0 where
  pub nodes : List (List ℕ)
  pub index : ℕ

unfoldable pub new_round_robin : RoundRobin
new_round_robin = record { nodes = []; index = 0 }

-- std::remove and erase.
unfoldable pub erase_node : List ℕ → List (List ℕ) → List (List ℕ)
erase_node node [] = []
erase_node node (n ∷ ns) = if bytes_eq n node then erase_node node ns else n ∷ erase_node node ns

unfoldable pub add_node : List ℕ → ℕ → RoundRobin → RoundRobin
add_node node weight b = record b { nodes = erase_node node b.nodes ++ replicate weight node }

unfoldable pub remove_node : List ℕ → RoundRobin → RoundRobin
remove_node node b = record b { nodes = erase_node node b.nodes }

-- nodes_[i], which is in range where it is called.
unfoldable pub at : ℕ → List (List ℕ) → List ℕ
at i ns = elim (get_elem? ns i) [ none ↦ [] | some n ↦ n ]

-- The node, "" if there is none, and the balancer afterwards. index_ is a size_t.
unfoldable pub get_node : RoundRobin → List ℕ × RoundRobin
get_node b = elim b.nodes [
  | [] ↦ ([], b)
  | n ∷ ns ↦ (at (b.index % length b.nodes) b.nodes, record b { index = (b.index + 1) % 2 ^ 64 })
]
