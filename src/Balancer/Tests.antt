-- ===== src/Balancer/Tests.antt =====
-- The balancers at concrete inputs; the theorems at inputs that meet their hypotheses.
use linux_highperf_proxy.Base.{◌≡◌, ◌⊎◌, refl, [], ◌∷◌, false, arith}
use linux_highperf_proxy.Base.Bytes.{codes, bytes_eq}
use linux_highperf_proxy.Balancer.RoundRobin
use linux_highperf_proxy.Balancer.RoundRobin.{RoundRobin, new_round_robin, at}
use linux_highperf_proxy.Balancer.RoundRobin.Fairness.{
  count, turns, remove_node-count, turns_rotate,
}
use linux_highperf_proxy.Balancer.ConsistentHash
use linux_highperf_proxy.Balancer.ConsistentHash.{
  ConsistentHash, fnv_loop, hash, lower_bound, successor, xor,
}
use linux_highperf_proxy.Balancer.ConsistentHash.Stability.{add_node-stable, remove_node-stable}
use linux_highperf_proxy.Balancer.LeastQueue
use linux_highperf_proxy.Balancer.LeastQueue.{LeastQueue}

abbrev three : RoundRobin
three = record { nodes = codes "a" ∷ codes "a" ∷ codes "b" ∷ []; index = 4 }

remove_node-count_example :
    count (codes "b") (RoundRobin.remove_node (codes "a") three).nodes
    ≡ count (codes "b") three.nodes
remove_node-count_example = remove_node-count (codes "a") (codes "b") three

turns_rotate_example : turns 3 three ≡ codes "a" ∷ codes "b" ∷ codes "a" ∷ []
turns_rotate_example = turns_rotate three (omega arith) (omega arith)

-- Two nodes on the ring.
abbrev two_nodes : ConsistentHash
two_nodes = record {
  virtual_per_weight = 1;
  ring = (1000, codes "a") ∷ (4000000000, codes "b") ∷ [];
  weights = (codes "a", 1) ∷ (codes "b", 1) ∷ [];
}

-- The FNV-1a hash of "k" is 0xee0c38ea = 3993778410.
k_goes_to_b : bytes_eq (ConsistentHash.get_node (codes "k") two_nodes) (codes "a") ≡ false
unfolding ConsistentHash.get_node hash fnv_loop xor successor lower_bound
k_goes_to_b = refl

remove_node-stable_example :
    ConsistentHash.get_node (codes "k") (ConsistentHash.remove_node (codes "a") two_nodes)
    ≡ ConsistentHash.get_node (codes "k") two_nodes
remove_node-stable_example = remove_node-stable (codes "k") (codes "a") two_nodes k_goes_to_b

add_node-stable_example :
    (ConsistentHash.get_node (codes "k") (ConsistentHash.add_node (codes "a") 2 two_nodes)
      ≡ codes "a")
    ⊎ (ConsistentHash.get_node (codes "k") (ConsistentHash.add_node (codes "a") 2 two_nodes)
        ≡ ConsistentHash.get_node (codes "k") two_nodes)
add_node-stable_example = add_node-stable (codes "k") (codes "a") 2 two_nodes k_goes_to_b

abbrev queues : LeastQueue
queues = record {
  nodes = codes "a" ∷ codes "b" ∷ codes "c" ∷ [];
  weights = [];
  queue_len = (codes "a", 7) ∷ (codes "b", 3) ∷ [];
  fallback = new_round_robin;
}
