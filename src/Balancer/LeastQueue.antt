-- ===== src/Balancer/LeastQueue.antt =====
-- src/balancer/LeastQueueBalancer.cpp: the node with the shortest queue. std::hash is a parameter.
pub mod Minimum
use linux_highperf_proxy.Base.{
  ℕ, zero, suc, ◌+◌, ◌-◌, ◌%◌, ◌^◌, List, [], ◌∷◌, ◌++◌, Option, none, some, Bool, true, false, ltb,
  ◌==◌, if◌then◌else◌, length, max,
}
use linux_highperf_proxy.Base.Maps.{find, put, remove}
use linux_highperf_proxy.Balancer.RoundRobin
use linux_highperf_proxy.Balancer.RoundRobin.{RoundRobin, new_round_robin, erase_node, at}

pub record LeastQueue : Type 0 where
  pub nodes : List (List ℕ)
  pub weights : List (List ℕ × ℕ)
  pub queue_len : List (List ℕ × ℕ)
  pub fallback : RoundRobin

unfoldable pub new_least_queue : LeastQueue
new_least_queue = record { nodes = []; weights = []; queue_len = []; fallback = new_round_robin }

unfoldable pub add_node : List ℕ → ℕ → LeastQueue → LeastQueue
add_node node weight b =
    let nodes' : List (List ℕ) = elim (find node b.weights) [
      | none ↦ b.nodes ++ (node ∷ [])
      | some w ↦ b.nodes
    ] in
    record b {
      nodes = nodes';
      weights = put node (max 1 weight) b.weights;
      fallback = RoundRobin.add_node node weight b.fallback;
    }

unfoldable pub remove_node : List ℕ → LeastQueue → LeastQueue
remove_node node b = record b {
  nodes = erase_node node b.nodes;
  weights = remove node b.weights;
  queue_len = remove node b.queue_len;
  fallback = RoundRobin.remove_node node b.fallback;
}

-- A length below zero is taken for 0, as it is here.
unfoldable pub record_queue_length : List ℕ → ℕ → LeastQueue → LeastQueue
record_queue_length node len b = record b { queue_len = put node len b.queue_len }

-- std::numeric_limits<int>::max()
abbrev pub int_max : ℕ
int_max = 2147483647

-- The loop over the nodes, with bestQ and best.
unfoldable pub scan : List (List ℕ × ℕ) → List (List ℕ) → ℕ → List (List ℕ) → ℕ × List (List ℕ)
scan lens [] best_q best = (best_q, best)
scan lens (n ∷ ns) best_q best = elim (find n lens) [
  | none ↦ scan lens ns best_q best
  | some q ↦
      let less = scan lens ns q (n ∷ []) in
      let same = scan lens ns best_q (best ++ (n ∷ [])) in
      let more = scan lens ns best_q best in
      if ltb q best_q then less else if q == best_q then same else more
]

module _ (std_hash : List ℕ → ℕ) where
  -- Among several nodes the hash of the key decides; without any length the fallback does.
  unfoldable pub choose : List ℕ → List (List ℕ) → LeastQueue → List ℕ × LeastQueue
  choose key [] b =
      let turn = RoundRobin.get_node b.fallback in (turn.0, record b { fallback = turn.1 })
  choose key (n ∷ []) b = (n, b)
  choose key (n ∷ m ∷ ns) b = (at (std_hash key % length (n ∷ m ∷ ns)) (n ∷ m ∷ ns), b)

  unfoldable pub get_node : List ℕ → LeastQueue → List ℕ × LeastQueue
  get_node key b = elim b.nodes [
    | [] ↦ ([], b)
    | n ∷ ns ↦ choose key (scan b.queue_len b.nodes int_max []).1 b
  ]
