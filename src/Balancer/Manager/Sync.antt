-- ===== src/Balancer/Manager/Sync.antt =====
-- BackendManager: the balancer knows exactly the backends that are eligible, and where that fails.
use linux_highperf_proxy.Base.{
  ℕ, ◌≡◌, ◌<◌, max, refl, ◌∙◌, subst, List, [], ◌∷◌, none, some, Bool, Bool-cases, true, false, inl,
  inr, not, ◌&&◌, ◌==◌, if◌then◌else◌, arith,
}
use linux_highperf_proxy.Base.Bytes.{bytes_eq, bytes_eq→eq}
use linux_highperf_proxy.Base.Int.{ℤ, pos, negsuc}
use linux_highperf_proxy.Base.Maps.{
  find, put, remove, find-put, find-remove, bytes_eq_trans, bytes_eq_comm,
}
use linux_highperf_proxy.Http1.Response.{bytes_lt}
use linux_highperf_proxy.Balancer.Manager.{
  Double, Balancer, BackendInfo, BackendManager, is_empty, clamp_weight, weight_factor, is_eligible,
  recompute_weight, reweigh, tell, sync_entries, insert_entry, entries, rebuild_balancer,
}

-- What a balancer promises of the nodes that it knows: they are added, with a weight that is not 0,
-- and removed one by one, nothing else changes them, and the node that it gives is one of them.
pub record IsBalancer (B : Type 0) (D : Type 0) (ops : Balancer B D) (knows : B → List ℕ → Bool)
    : Type 0 where
  pub knows-add :
      (id : List ℕ) (w : ℕ) (b : B) (j : List ℕ)
      → 0 < w
      → knows (ops.add_node id w b) j ≡ (if bytes_eq id j then true else knows b j)
  pub knows-remove :
      (id : List ℕ) (b : B) (j : List ℕ)
      → knows (ops.remove_node id b) j ≡ (if bytes_eq id j then false else knows b j)
  pub knows-get : (key : List ℕ) (b : B) (j : List ℕ) → knows (ops.get_node key b).1 j ≡ knows b j
  pub knows-start :
      (id : List ℕ) (b : B) (j : List ℕ) → knows (ops.on_connection_start id b) j ≡ knows b j
  pub knows-end :
      (id : List ℕ) (b : B) (j : List ℕ) → knows (ops.on_connection_end id b) j ≡ knows b j
  pub knows-time :
      (id : List ℕ) (ms : D) (b : B) (j : List ℕ)
      → knows (ops.record_response_time_ms id ms b) j ≡ knows b j
  pub knows-queue :
      (id : List ℕ) (n : ℤ) (b : B) (j : List ℕ)
      → knows (ops.record_queue_length id n b) j ≡ knows b j
  pub knows-gpu :
      (id : List ℕ) (u : D) (used total : ℤ) (b : B) (j : List ℕ)
      → knows (ops.record_gpu_util id u used total b) j ≡ knows b j
  pub known_node :
      (key : List ℕ) (b : B)
      → is_empty (ops.get_node key b).0 ≡ false
      → knows b (ops.get_node key b).0 ≡ true

-- Each key once.
abbrev pub IsUnique : {V : Type 0} → List (List ℕ × V) → Type 0
IsUnique [] = Unit {0}
IsUnique ((k, v) ∷ m) = (find k m ≡ none) × IsUnique m

-- No weight is 0.
abbrev pub AllWeights : {D : Type 0} → List (List ℕ × BackendInfo D) → Type 0
AllWeights [] = Unit {0}
AllWeights ((k, b) ∷ m) = (0 < b.weight) × AllWeights m

module _ {V : Type 0} where
  pub put-IsUnique :
      (key : List ℕ) (v : V) (m : List (List ℕ × V)) → IsUnique m → IsUnique (put key v m)
  unfolding put
  put-IsUnique key v [] h = unfold find in (refl, tt)
  put-IsUnique key v ((k, w) ∷ m) h = elim (Bool-cases (bytes_eq k key)) [
    | inl e ↦ rw e (subst (λ x. find x m ≡ none) (bytes_eq→eq k key e) h.0, h.1)
    | inr e ↦
        rw e (
          ground (arith, e, h.0, find-put key k v m, bytes_eq_comm key k),
          put-IsUnique key v m h.1,
        )
  ]

  pub remove-IsUnique :
      (key : List ℕ) (m : List (List ℕ × V)) → IsUnique m → IsUnique (remove key m)
  unfolding remove
  remove-IsUnique key [] h = tt
  remove-IsUnique key ((k, w) ∷ m) h = elim (Bool-cases (bytes_eq k key)) [
    | inl e ↦ rw e (remove-IsUnique key m h.1)
    | inr e ↦ rw e (
      ground (arith, e, h.0, find-remove key k m, bytes_eq_comm key k),
      remove-IsUnique key m h.1,
    )
  ]

module _ {D : Type 0} where
  pub put-AllWeights :
      (key : List ℕ) (b : BackendInfo D) (m : List (List ℕ × BackendInfo D))
      → 0 < b.weight
      → AllWeights m
      → AllWeights (put key b m)
  unfolding put
  put-AllWeights key b [] h hs = (h, tt)
  put-AllWeights key b ((k, w) ∷ m) h hs = elim (Bool-cases (bytes_eq k key)) [
    | inl e ↦ rw e (h, hs.1)
    | inr e ↦ rw e (hs.0, put-AllWeights key b m h hs.1)
  ]

  pub remove-AllWeights :
      (key : List ℕ) (m : List (List ℕ × BackendInfo D)) → AllWeights m → AllWeights (remove key m)
  unfolding remove
  remove-AllWeights key [] hs = tt
  remove-AllWeights key ((k, w) ∷ m) hs = elim (Bool-cases (bytes_eq k key)) [
    | inl e ↦ rw e (remove-AllWeights key m hs.1)
    | inr e ↦ rw e (hs.0, remove-AllWeights key m hs.1)
  ]

  pub find-AllWeights :
      (key : List ℕ) (b : BackendInfo D) (m : List (List ℕ × BackendInfo D))
      → AllWeights m
      → find key m ≡ some b
      → 0 < b.weight
  unfolding find
  find-AllWeights key b [] hs e = cc
  find-AllWeights key b ((k, w) ∷ m) hs e = elim (Bool-cases (bytes_eq k key)) [
    | inl t ↦ ground (arith, t, e, hs.0)
    | inr t ↦ ground (arith, t, e, find-AllWeights key b m hs.1)
  ]

module _ {B : Type 0} {D : Type 0} (double : Double D) (ops : Balancer B D) where
  insert_entry-AllWeights :
      (id : List ℕ) (b : BackendInfo D) (m : List (List ℕ × BackendInfo D))
      → 0 < b.weight
      → AllWeights m
      → AllWeights (insert_entry double ops id b m)
  unfolding insert_entry
  insert_entry-AllWeights id b [] h hs = (h, tt)
  insert_entry-AllWeights id b ((k, w) ∷ m) h hs = elim (Bool-cases (bytes_lt id k)) [
    | inl e ↦ rw e (h, hs)
    | inr e ↦ rw e (hs.0, insert_entry-AllWeights id b m h hs.1)
  ]

  entries-AllWeights :
      (m : List (List ℕ × BackendInfo D)) → AllWeights m → AllWeights (entries double ops m)
  unfolding entries
  entries-AllWeights [] hs = tt
  entries-AllWeights ((k, w) ∷ m) hs =
      insert_entry-AllWeights k w (entries double ops m) hs.0 (entries-AllWeights m hs.1)

  find-insert_entry :
      (id j : List ℕ) (b : BackendInfo D) (m : List (List ℕ × BackendInfo D))
      → find id m ≡ none
      → find j (insert_entry double ops id b m) ≡ (if bytes_eq id j then some b else find j m)
  unfolding find insert_entry
  find-insert_entry id j b [] h = refl
  find-insert_entry id j b ((k, w) ∷ m) h = elim (Bool-cases (bytes_eq id j)) [
    | inl e ↦ ground (
      arith,
      e,
      h,
      find-insert_entry id j b m,
      bytes_eq_trans id j k e,
      bytes_eq_comm id k,
      bytes_eq_comm j k,
    )
    | inr e ↦ ground (arith, e, h, find-insert_entry id j b m)
  ]

  insert_entry-IsUnique :
      (id : List ℕ) (b : BackendInfo D) (m : List (List ℕ × BackendInfo D))
      → find id m ≡ none
      → IsUnique m
      → IsUnique (insert_entry double ops id b m)
  unfolding insert_entry
  insert_entry-IsUnique id b [] h u = (h, tt)
  insert_entry-IsUnique id b ((k, w) ∷ m) h u =
      let (apart, h') = absent in
      elim (Bool-cases (bytes_lt id k)) [
        | inl e ↦ rw e (h, u)
        | inr e ↦ rw e (
          ground (arith, apart, u.0, find-insert_entry id k b m h'),
          insert_entry-IsUnique id b m h' u.1,
        )
      ]
    where
      absent : (bytes_eq id k ≡ false) × (find id m ≡ none)
      absent = unfold find in ground (arith, h, bytes_eq_comm id k)

  pub entries_lem :
      (m : List (List ℕ × BackendInfo D)) (j : List ℕ)
      → IsUnique m
      → (find j (entries double ops m) ≡ find j m) × IsUnique (entries double ops m)
  unfolding entries find
  entries_lem [] j u = (refl, tt)
  entries_lem ((k, w) ∷ m) j u =
      let gone : find k (entries double ops m) ≡ none = (entries_lem m k u.1).0 ∙ u.0 in
      (
        find-insert_entry k j w (entries double ops m) gone
            ∙ ground (arith, (entries_lem m j u.1).0),
        insert_entry-IsUnique k w (entries double ops m) gone (entries_lem m j u.1).1,
      )

clamp_weight_pos : (bound : ℕ) (w : ℤ) → 0 < bound → 0 < clamp_weight bound w
unfolding clamp_weight
clamp_weight_pos bound (pos n) h = ground arith
clamp_weight_pos bound (negsuc n) h = omega arith

-- Is the backend there and eligible?
unfoldable pub eligible_at : {D : Type 0} → List ℕ → List (List ℕ × BackendInfo D) → Bool
eligible_at j backends = elim (find j backends) [ none ↦ false | some b ↦ is_eligible b ]

module _ {B : Type 0} {D : Type 0} (double : Double D) (ops : Balancer B D)
    (knows : B → List ℕ → Bool) (laws : IsBalancer B D ops knows) where
  pub sync_entries-knows :
      (es : List (List ℕ × BackendInfo D)) (bal : B) (j : List ℕ)
      → IsUnique es
      → AllWeights es
      → knows (sync_entries double ops es bal) j
        ≡ (elim (find j es) [ none ↦ knows bal j | some b ↦ is_eligible b ])
  unfolding sync_entries find
  sync_entries-knows [] bal j u hs = refl
  sync_entries-knows ((id, b) ∷ es) bal j u hs = elim (Bool-cases (bytes_eq id j)) [
    | inl e ↦
        let gone : find j es ≡ none = subst (λ x. find x es ≡ none) (bytes_eq→eq id j e) u.0 in
        ground (
          arith,
          e,
          gone,
          sync_entries-knows es
              (if is_eligible b then ops.add_node id b.weight bal else ops.remove_node id bal) j u.1
              hs.1,
          hs.0,
          laws.knows-add id b.weight bal j,
          laws.knows-remove id bal j,
        )
    | inr e ↦ ground (
      arith,
      e,
      sync_entries-knows es
          (if is_eligible b then ops.add_node id b.weight bal else ops.remove_node id bal) j u.1
          hs.1,
      hs.0,
      laws.knows-add id b.weight bal j,
      laws.knows-remove id bal j,
    )
  ]

  -- The balancer knows a node exactly if it is an eligible backend, and each backend has one entry and a
  -- weight.
  pub record InSync (m : BackendManager B D) : Type 0 where
    pub unique : IsUnique m.backends
    pub weights : AllWeights m.backends
    pub knows-eligible_at : (j : List ℕ) → knows m.balancer j ≡ eligible_at j m.backends

  -- One backend is replaced, and the balancer knows it exactly if it is eligible.
  pub put-knows :
      (id j : List ℕ) (b' : BackendInfo D) (m : BackendManager B D) (bal : B)
      → InSync m
      → knows bal j ≡ (if bytes_eq id j then is_eligible b' else knows m.balancer j)
      → knows bal j ≡ eligible_at j (put id b' m.backends)
  unfolding eligible_at
  put-knows id j b' m bal s h =
      ground (arith, h, s.knows-eligible_at j, find-put id j b' m.backends)

  pub known_before :
      (id j : List ℕ) (b : BackendInfo D) (m : BackendManager B D)
      → InSync m
      → find id m.backends ≡ some b
      → bytes_eq id j ≡ true
      → knows m.balancer j ≡ is_eligible b
  unfolding eligible_at
  known_before id j b m s e same =
      let p = bytes_eq→eq id j same in
      let e' : find j m.backends ≡ some b = subst (λ x. find x m.backends ≡ some b) p e in
      ground (arith, e', s.knows-eligible_at j)

  recompute_weight-is_eligible :
      (auto : Bool) (b : BackendInfo D)
      → is_eligible (recompute_weight double ops auto b) ≡ is_eligible b
  unfolding recompute_weight is_eligible
  recompute_weight-is_eligible auto b = ground arith

  pub recompute_weight_pos :
      (auto : Bool) (b : BackendInfo D) → 0 < (recompute_weight double ops auto b).weight
  unfolding recompute_weight
  recompute_weight_pos auto b =
      let most = max 1 b.base_weight in
      ground (
        arith,
        clamp_weight_pos most
            (double.lround (double.mul (double.of_int (pos most)) (weight_factor double ops b))),
      )

  -- A new weight, where the balancer of the manager knows what it knew before the change of the backend.
  pub reweigh-InSync :
      (id : List ℕ) (b b' : BackendInfo D) (m m' : BackendManager B D)
      → InSync m
      → find id m.backends ≡ some b
      → is_eligible b' ≡ is_eligible b
      → m'.backends ≡ m.backends
      → ((j : List ℕ) → knows m'.balancer j ≡ knows m.balancer j)
      → InSync (reweigh double ops id b' m')
  unfolding reweigh
  reweigh-InSync id b b' m m' s e same kept known = record {
    unique = rw kept (put-IsUnique id _ m.backends s.unique);
    weights =
        rw kept (
          put-AllWeights id _ m.backends (recompute_weight_pos m'.auto_weight_adjust b') s.weights);
    knows-eligible_at = λ j.
        let w = recompute_weight double ops m'.auto_weight_adjust b' in
        rw kept (
          put-knows id j w m
            (if not (w.weight == b'.weight) && is_eligible w
              then ops.add_node id w.weight m'.balancer
              else m'.balancer)
            s
            (ground (
              arith,
              same,
              recompute_weight-is_eligible m'.auto_weight_adjust b',
              known j,
              recompute_weight_pos m'.auto_weight_adjust b',
              known_before id j b m s e,
              laws.knows-add id w.weight m'.balancer j,
            )));
  }

  -- One backend is replaced and what the balancer knows of it with it.
  pub changed-InSync :
      (id : List ℕ) (b' : BackendInfo D) (m m' : BackendManager B D)
      → InSync m
      → 0 < b'.weight
      → m'.backends ≡ put id b' m.backends
      → ((j : List ℕ)
          → knows m'.balancer j ≡ (if bytes_eq id j then is_eligible b' else knows m.balancer j))
      → InSync m'
  changed-InSync id b' m m' s heavy kept h = record {
    unique = rw kept (put-IsUnique id b' m.backends s.unique);
    weights = rw kept (put-AllWeights id b' m.backends heavy s.weights);
    knows-eligible_at = λ j. rw kept (put-knows id j b' m m'.balancer s (h j));
  }

  -- The backends stay and what the balancer knows stays.
  pub same-InSync :
      (m m' : BackendManager B D)
      → InSync m
      → m'.backends ≡ m.backends
      → ((j : List ℕ) → knows m'.balancer j ≡ knows m.balancer j)
      → InSync m'
  same-InSync m m' s kept h = record {
    unique = rw kept s.unique;
    weights = rw kept s.weights;
    knows-eligible_at = λ j. rw kept (h j ∙ s.knows-eligible_at j);
  }

  pub rebuild_balancer-knows :
      (m : BackendManager B D) (j : List ℕ)
      → IsUnique m.backends
      → AllWeights m.backends
      → knows (rebuild_balancer double ops m).balancer j
        ≡ (elim (find j m.backends) [ none ↦ knows m.balancer j | some b ↦ is_eligible b ])
  unfolding rebuild_balancer
  rebuild_balancer-knows m j u hs =
      let (same, u') = entries_lem double ops m.backends j u in
      sync_entries-knows (entries double ops m.backends) m.balancer j u'
        (entries-AllWeights double ops m.backends hs)
      ∙ rw same refl

  pub tell-knows :
      (id : List ℕ) (b b' : BackendInfo D) (m : BackendManager B D) (bal : B) (j : List ℕ)
      → InSync m
      → 0 < b'.weight
      → find id m.backends ≡ some b
      → knows bal j ≡ knows m.balancer j
      → knows (tell double ops id (is_eligible b) b' bal) j
        ≡ (if bytes_eq id j then is_eligible b' else knows m.balancer j)
  unfolding tell
  tell-knows id b b' m bal j s heavy e h = ground (
    arith,
    h,
    known_before id j b m s e,
    laws.knows-add id b'.weight bal j,
    laws.knows-remove id bal j,
  )
