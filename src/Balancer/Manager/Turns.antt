-- ===== src/Balancer/Manager/Turns.antt =====
-- RoundRobinBalancer behind the interface that BackendManager uses.
use linux_highperf_proxy.Base.{
  ℕ, zero, suc, ◌%◌, ◌≡◌, ◌<◌, refl, List, [], ◌∷◌, ◌++◌, some, Bool, Bool-cases, List-cases, true,
  false, inl, inr, ◌||◌, if◌then◌else◌, length, get_elem?, get_elem?-some, replicate, arith,
}
use linux_highperf_proxy.Base.Bytes.{bytes_eq, bytes_eq_refl}
use linux_highperf_proxy.Base.Maps.{bytes_eq_trans, bytes_eq_comm}
use linux_highperf_proxy.Balancer.RoundRobin.{
  RoundRobin, erase_node, add_node, remove_node, at, get_node,
}
use linux_highperf_proxy.Balancer.Manager.{Balancer, is_empty}
use linux_highperf_proxy.Balancer.Manager.Sync.{IsBalancer}
use native.Mathlib.Nat.{mod-lt}

unfoldable pub listed : List ℕ → List (List ℕ) → Bool
listed j [] = false
listed j (n ∷ ns) = bytes_eq n j || listed j ns

listed-append :
    (j : List ℕ) (xs ys : List (List ℕ)) → listed j (xs ++ ys) ≡ (listed j xs || listed j ys)
unfolding listed
listed-append j [] ys = refl
listed-append j (x ∷ xs) ys = ground (arith, listed-append j xs ys)

listed-replicate : (j node : List ℕ) (w : ℕ) → listed j (replicate (suc w) node) ≡ bytes_eq node j
unfolding listed
listed-replicate j node zero = ground arith
listed-replicate j node (suc w) = ground (arith, listed-replicate j node w)

listed-erase_node :
    (node j : List ℕ) (ns : List (List ℕ))
    → listed j (erase_node node ns) ≡ (if bytes_eq node j then false else listed j ns)
unfolding listed erase_node
listed-erase_node node j [] = ground arith
listed-erase_node node j (n ∷ ns) = elim (Bool-cases (bytes_eq n node)) [
  | inl e ↦ ground (arith, e, bytes_eq_trans n node j e, listed-erase_node node j ns)
  | inr e ↦ elim (Bool-cases (bytes_eq node j)) [
    | inl e' ↦ ground (
      arith,
      e,
      e',
      listed-erase_node node j ns,
      bytes_eq_trans node j n e',
      bytes_eq_comm node n,
      bytes_eq_comm j n,
    )
    | inr e' ↦ ground (arith, e, e', listed-erase_node node j ns)
  ]
]

listed-get_elem? :
    (ns : List (List ℕ)) (i : ℕ) (n : List ℕ) → get_elem? ns i ≡ some n → listed n ns ≡ true
unfolding listed
listed-get_elem? [] i n e = cc
listed-get_elem? (m ∷ ns) zero n e = ground (arith, e, bytes_eq_refl n)
listed-get_elem? (m ∷ ns) (suc i) n e = ground (arith, listed-get_elem? ns i n e)

-- The functions that RoundRobinBalancer overrides; the others do nothing.
unfoldable pub round_robin : (D : Type 0) → Balancer RoundRobin D
round_robin D = record {
  add_node = add_node;
  remove_node = remove_node;
  get_node = λ key b. get_node b;
  on_connection_start = λ id b. b;
  on_connection_end = λ id b. b;
  record_response_time_ms = λ id ms b. b;
  record_queue_length = λ id n b. b;
  record_gpu_util = λ id u used total b. b;
}

unfoldable pub knows_turn : RoundRobin → List ℕ → Bool
knows_turn b j = listed j b.nodes

add_node-listed :
    (id : List ℕ) (w : ℕ) (b : RoundRobin) (j : List ℕ)
    → 0 < w
    → knows_turn (add_node id w b) j ≡ (if bytes_eq id j then true else knows_turn b j)
unfolding add_node knows_turn
add_node-listed id zero b j h = absurd (omega arith)
add_node-listed id (suc w) b j h = ground (
  arith,
  listed-append j (erase_node id b.nodes) (replicate (suc w) id),
  listed-erase_node id j b.nodes,
  listed-replicate j id w,
)

get_node-listed :
    (b : RoundRobin) → is_empty (get_node b).0 ≡ false → knows_turn b (get_node b).0 ≡ true
unfolding get_node knows_turn at
get_node-listed b h = elim (List-cases b.nodes) [
  | inl n ↦ ground (arith, n, h)
  | inr (x, xs, e) ↦
      let within : b.index % length (x ∷ xs) < length (x ∷ xs) = mod-lt b.index (omega arith) in
      let (n, found) = get_elem?-some (x ∷ xs) (b.index % length (x ∷ xs)) within in
      ground (arith, e, found, listed-get_elem? (x ∷ xs) (b.index % length (x ∷ xs)) n found)
]

-- RoundRobinBalancer keeps the promises of a balancer.
pub round_robin-IsBalancer : (D : Type 0) → IsBalancer RoundRobin D (round_robin D) knows_turn
unfolding round_robin
round_robin-IsBalancer D = record {
  knows-add = add_node-listed;
  knows-remove = λ id b j. unfold remove_node knows_turn in listed-erase_node id j b.nodes;
  knows-get = λ key b j. unfold get_node knows_turn in ground arith;
  knows-start = λ id b j. refl;
  knows-end = λ id b j. refl;
  knows-time = λ id ms b j. refl;
  knows-queue = λ id n b j. refl;
  knows-gpu = λ id u used total b j. refl;
  known_node = λ key b h. get_node-listed b h;
}
