-- ===== src/Balancer/ConsistentHash/Stability.antt =====
-- A change of the nodes moves no more keys than it must.
use linux_highperf_proxy.Base.{
  ℕ, zero, suc, ◌+◌, ◌*◌, ◌≡◌, ◌≢◌, ◌⊎◌, refl, sym, ap, ◌∙◌, List, [], ◌∷◌, none, some,
  Option-cases, Bool-cases, inl, inr, false, arith,
}
use linux_highperf_proxy.Base.Bytes.{bytes_eq}
use linux_highperf_proxy.Base.Maps.{find}
use linux_highperf_proxy.Balancer.ConsistentHash.{
  hash, Ring, ring_put, lower_bound, ring_erase, virtual_node, add_virtual, ConsistentHash,
  remove_node, place_node, add_node, successor, get_node,
}

-- Another node's entry stays the first at or above a hash.
lower_bound-ring_erase :
    (node : List ℕ) (h : ℕ) (ring : Ring) (n : List ℕ)
    → lower_bound h ring ≡ some n
    → bytes_eq n node ≡ false
    → lower_bound h (ring_erase node ring) ≡ some n
unfolding lower_bound ring_erase
lower_bound-ring_erase node h [] n e other = cc
lower_bound-ring_erase node h ((i, m) ∷ ring) n e other =
    ground (arith, e, other, lower_bound-ring_erase node h ring n)

lower_bound-ring_erase-none :
    (node : List ℕ) (h : ℕ) (ring : Ring)
    → lower_bound h ring ≡ none
    → lower_bound h (ring_erase node ring) ≡ none
unfolding lower_bound ring_erase
lower_bound-ring_erase-none node h [] e = refl
lower_bound-ring_erase-none node h ((i, m) ∷ ring) e =
    ground (arith, e, lower_bound-ring_erase-none node h ring)

-- A put makes its node the first at or above a hash, or leaves the first one.
lower_bound-ring_put :
    (k h : ℕ) (node : List ℕ) (ring : Ring)
    → (lower_bound k (ring_put h node ring) ≡ some node)
      ⊎ (lower_bound k (ring_put h node ring) ≡ lower_bound k ring)
unfolding lower_bound ring_put
lower_bound-ring_put k h node [] = ground arith
lower_bound-ring_put k h node ((i, n) ∷ ring) = ground (arith, lower_bound-ring_put k h node ring)

successor-some :
    (h : ℕ) (ring : Ring) (n : List ℕ) → lower_bound h ring ≡ some n → successor h ring ≡ n
unfolding successor lower_bound
successor-some h [] n e = cc
successor-some h ((i, m) ∷ ring) n e = ground (arith, e)

successor_first :
    (h i : ℕ) (n : List ℕ) (ring : Ring)
    → lower_bound h ((i, n) ∷ ring) ≡ none
    → successor h ((i, n) ∷ ring) ≡ n
unfolding successor
successor_first h i n ring e = rw (e, successor) refl

successor-ring_erase :
    (node : List ℕ) (h : ℕ) (ring : Ring)
    → bytes_eq (successor h ring) node ≡ false
    → successor h (ring_erase node ring) ≡ successor h ring
unfolding ring_erase
successor-ring_erase node h [] other = refl
successor-ring_erase node h ((i, n) ∷ ring) other =
    let whole = (i, n) ∷ ring in
    elim (Option-cases (lower_bound h whole)) [
      | inl e ↦
          let same = successor_first h i n ring e in
          let kept : bytes_eq n node ≡ false = ap (λ m. bytes_eq m node) (sym same) ∙ other in
          rw (kept, ring_erase)
            (successor_first h i n (ring_erase node ring)
                (let e' = lower_bound-ring_erase-none node h whole e in ground (arith, e', kept))
              ∙ sym same)
      | inr (m, e) ↦
          let same = successor-some h whole m e in
          let kept : bytes_eq m node ≡ false = ap (λ x. bytes_eq x node) (sym same) ∙ other in
          successor-some h (ring_erase node whole) m (lower_bound-ring_erase node h whole m e kept)
          ∙ sym same
    ]

successor-ring_put :
    (k h : ℕ) (node : List ℕ) (ring : Ring)
    → (successor k (ring_put h node ring) ≡ node)
      ⊎ (successor k (ring_put h node ring) ≡ successor k ring)
unfolding ring_put successor lower_bound
successor-ring_put k h node [] = ground arith
successor-ring_put k h node ((i, n) ∷ ring) = ground (arith, lower_bound-ring_put k h node ring)

successor-add_virtual :
    (k left i : ℕ) (node : List ℕ) (ring : Ring)
    → (successor k (add_virtual left i node ring) ≡ node)
      ⊎ (successor k (add_virtual left i node ring) ≡ successor k ring)
unfolding add_virtual
successor-add_virtual k zero i node ring = inr refl
successor-add_virtual k (suc left) i node ring =
    let put = ring_put (hash (virtual_node node i)) node ring in
    elim (successor-add_virtual k left (i + 1) node put) [
      | inl e ↦ inl e
      | inr e ↦ elim (successor-ring_put k (hash (virtual_node node i)) node ring) [
        | inl e' ↦ inl (e ∙ e')
        | inr e' ↦ inr (e ∙ e')
      ]
    ]

-- RemoveNode moves only the keys of the node that it removes: a key that was at another node stays.
pub remove_node-stable :
    (key node : List ℕ) (b : ConsistentHash)
    → bytes_eq (get_node key b) node ≡ false
    → get_node key (remove_node node b) ≡ get_node key b
unfolding get_node remove_node
remove_node-stable key node b other = successor-ring_erase node (hash key) b.ring other

-- AddNode moves keys only to the node that it adds, or whose weight it changes: a key that was at
-- another node stays there or comes to that node.
pub add_node-stable :
    (key node : List ℕ) (weight : ℕ) (b : ConsistentHash)
    → bytes_eq (get_node key b) node ≡ false
    → (get_node key (add_node node weight b) ≡ node)
      ⊎ (get_node key (add_node node weight b) ≡ get_node key b)
unfolding get_node add_node place_node remove_node
add_node-stable key node weight b other =
    let n = weight * b.virtual_per_weight in
    elim (Option-cases (find node b.weights)) [
      | inl e ↦ rw (e, add_node) (successor-add_virtual (hash key) n 0 node b.ring)
      | inr (w, e) ↦
          rw (e, add_node)
            (elim (successor-add_virtual (hash key) n 0 node (ring_erase node b.ring)) [
              | inl at ↦ inl at
              | inr same ↦ inr (same ∙ successor-ring_erase node (hash key) b.ring other)
            ])
    ]

-- A removed node is chosen for no key.
ring_erase_gone :
    (node : List ℕ) (h : ℕ) (ring : Ring) (n : List ℕ)
    → lower_bound h (ring_erase node ring) ≡ some n
    → bytes_eq n node ≡ false
unfolding lower_bound ring_erase
ring_erase_gone node h [] n e = cc
ring_erase_gone node h ((i, m) ∷ ring) n e = ground (arith, e, ring_erase_gone node h ring n)

successor_gone :
    (b : ℕ) (bs : List ℕ) (h : ℕ) (ring : Ring)
    → bytes_eq (successor h (ring_erase (b ∷ bs) ring)) (b ∷ bs) ≡ false
unfolding ring_erase successor
successor_gone b bs h [] = refl
successor_gone b bs h ((i, n) ∷ ring) = elim (Bool-cases (bytes_eq n (b ∷ bs))) [
  | inl e ↦ rw (e, ring_erase) (successor_gone b bs h ring)
  | inr e ↦ elim (Option-cases (lower_bound h ((i, n) ∷ ring_erase (b ∷ bs) ring))) [
    | inl none_above ↦ ground (arith, e, none_above)
    | inr (m, above) ↦ ground (arith, e, above, ring_erase_gone (b ∷ bs) h ((i, n) ∷ ring) m)
  ]
]

-- After RemoveNode of a node with a name, GetNode gives that node for no key.
pub remove_node_gone :
    (key node : List ℕ) (b : ConsistentHash)
    → node ≢ []
    → bytes_eq (get_node key (remove_node node b)) node ≡ false
unfolding get_node remove_node
remove_node_gone key [] b named = absurd (named refl)
remove_node_gone key (c ∷ cs) b named = successor_gone c cs (hash key) b.ring
