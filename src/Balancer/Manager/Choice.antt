-- ===== src/Balancer/Manager/Choice.antt =====
-- BackendManager: a request for a version of a model goes to a backend that can serve it.
use linux_highperf_proxy.Base.{
  ℕ, ◌-◌, ◌%◌, ◌≡◌, ◌≢◌, sym, ap, ◌∙◌, subst, List, [], ◌∷◌, none, some, Option-cases, List-cases,
  Bool, Bool-cases, true, false, inl, inr, ◌<◌, ltb, max, arith,
}
use native.Mathlib.Nat.{mod-lt}
use linux_highperf_proxy.Base.Bytes.{bytes_eq, bytes_eq→eq, bytes_eq_refl}
use linux_highperf_proxy.Base.Maps.{find}
use linux_highperf_proxy.Balancer.Manager.{
  Double, Balancer, BackendInfo, BackendManager, is_empty, entries, version_key,
}
use linux_highperf_proxy.Balancer.Manager.Select.{
  fnv1a64, sum_weights, pick_weighted, choose, candidates, may_serve_version, reports_version,
  remembered, choose_by, select_backend_for_model_version,
}
use linux_highperf_proxy.Balancer.Manager.Sync.{IsUnique, entries_lem}

-- A backend of that address passes the test.
abbrev pub Passes :
    {D : Type 0} → (BackendInfo D → Bool) → List ℕ → List (List ℕ × BackendInfo D) → Type 0
Passes {D} test id backends = (b : BackendInfo D) × (find id backends ≡ some b) × (test b ≡ true)

module _ {D : Type 0} (test : BackendInfo D → Bool) where
  -- What is picked is a candidate, and a candidate is a backend that passes.
  pick_weighted-Passes :
      (pick : ℕ) (bs : List (List ℕ × BackendInfo D)) (id : List ℕ)
      → IsUnique bs
      → pick_weighted pick (candidates test bs) ≡ some id
      → Passes test id bs
  unfolding pick_weighted candidates find
  pick_weighted-Passes pick [] id u e = cc
  pick_weighted-Passes pick ((k, b) ∷ bs) id u e = elim (Bool-cases (test b)) [
    | inr t ↦ later (pick_weighted-Passes pick bs id u.1 (ground (arith, t, e)))
    | inl t ↦ elim (Bool-cases (ltb pick (max 1 b.weight))) [
      | inl l ↦
          let same : k ≡ id = ground (arith, t, l, e) in
          (b, ground (arith, same, bytes_eq_refl k), t)
      | inr l ↦
          later (pick_weighted-Passes (pick - max 1 b.weight) bs id u.1 (ground (arith, t, l, e)))
    ]
  ]
    where
      later : Passes test id bs → Passes test id ((k, b) ∷ bs)
      later (c, found, passed) = elim (Bool-cases (bytes_eq k id)) [
        | inl same ↦
            let gone : find id bs ≡ none =
              subst (λ x. find x bs ≡ none) (bytes_eq→eq k id same) u.0 in
            absurd (ground (arith, gone, found))
        | inr other ↦ (c, ground (arith, other, found), passed)
      ]

  -- Below the sum of the weights something is picked.
  pick_weighted-ne-none :
      (cs : List (List ℕ × ℕ)) (pick : ℕ) → pick < sum_weights cs → pick_weighted pick cs ≢ none
  unfolding pick_weighted sum_weights
  pick_weighted-ne-none [] pick h = absurd (omega arith)
  pick_weighted-ne-none ((id, w) ∷ cs) pick h = ground (arith, pick_weighted-ne-none cs (pick - w))

  choose-ne-none :
      (key : List ℕ) (bs : List (List ℕ × BackendInfo D)) (id : List ℕ)
      → Passes test id bs
      → choose key (candidates test bs) ≢ none
  unfolding choose candidates
  choose-ne-none key [] id (b, found, passed) = unfold find in cc
  choose-ne-none key ((k, b) ∷ bs) id (c, found, passed) = elim (Bool-cases (test b)) [
    | inl t ↦
        let cs = (k, max 1 b.weight) ∷ candidates test bs in
        let some_weight : 0 < sum_weights cs = unfold sum_weights in omega arith in
        let below =
          pick_weighted-ne-none cs (fnv1a64 key % sum_weights cs)
            (mod-lt (fnv1a64 key) some_weight) in
        rw t below
    | inr t ↦
        let rest : Passes test id bs = elim (Bool-cases (bytes_eq k id)) [
          | inl same ↦ absurd (unfold find in ground (arith, same, found, t, passed))
          | inr other ↦ (c, unfold find in ground (arith, other, found), passed)
        ] in
        rw t (choose-ne-none key bs id rest)
  ]

  choose-Passes :
      (key : List ℕ) (es : List (List ℕ × BackendInfo D)) (id : List ℕ)
      → IsUnique es
      → choose key (candidates test es) ≡ some id
      → Passes test id es
  choose-Passes key es id u e = elim (List-cases (candidates test es)) [
    | inl n ↦ absurd (unfold choose in ground (arith, n, e))
    | inr (c, cs, n) ↦
        pick_weighted-Passes (fnv1a64 key % sum_weights (c ∷ cs)) es id u
          (unfold choose in ground (arith, n, e))
  ]

module _ {B : Type 0} {D : Type 0} (double : Double D) (ops : Balancer B D) where
  choose_by-Passes :
      (test : BackendInfo D → Bool) (key : List ℕ) (bs : List (List ℕ × BackendInfo D))
      (id : List ℕ)
      → IsUnique bs
      → choose_by double ops test key bs ≡ some id
      → Passes test id bs
  unfolding choose_by
  choose_by-Passes test key bs id u e =
      let es = entries double ops bs in
      let (same, u') = entries_lem double ops bs id u in
      elim (Option-cases (choose key (candidates test es))) [
        | inl n ↦ absurd (ground (arith, n, e))
        | inr (c, chosen) ↦
            let is_it : c ≡ id = elim (Option-cases (find c bs)) [
              | inl n ↦ absurd (ground (arith, chosen, n, e))
              | inr (b, f) ↦ ground (arith, chosen, f, e)
            ] in
            let (b, found, passed) = choose-Passes test key es id u' (chosen ∙ ap some is_it) in
            (b, sym same ∙ found, passed)
      ]

  remembered-Passes :
      (test : BackendInfo D → Bool) (key : List ℕ) (affinity : List (List ℕ × List ℕ))
      (bs : List (List ℕ × BackendInfo D)) (id : List ℕ)
      → remembered double ops test key affinity bs ≡ some id
      → Passes test id bs
  unfolding remembered
  remembered-Passes test key affinity bs id e = elim (Option-cases (find key affinity)) [
    | inl n ↦ absurd (ground (arith, n, e))
    | inr (c, known) ↦ elim (Option-cases (find c bs)) [
      | inl n ↦ absurd (ground (arith, known, n, e))
      | inr (b, found) ↦
          let is_it : c ≡ id = ground (arith, known, found, e) in
          (b, ap (λ x. find x bs) (sym is_it) ∙ found, ground (arith, known, found, e))
    ]
  ]

  choose_by-ne-none :
      (test : BackendInfo D → Bool) (key : List ℕ) (bs : List (List ℕ × BackendInfo D))
      (id : List ℕ)
      → IsUnique bs
      → find [] bs ≡ none
      → Passes test id bs
      → choose_by double ops test key bs ≢ none
  unfolding choose_by
  choose_by-ne-none test key bs id u named (b, found, passed) e =
      let es = entries double ops bs in
      let here = entries_lem double ops bs id u in
      elim (Option-cases (choose key (candidates test es))) [
        | inl n ↦ choose-ne-none test key es id (b, here.0 ∙ found, passed) n
        | inr (c, chosen) ↦
            let (b', found', passed') = choose-Passes test key es c here.1 chosen in
            let kept : find c bs ≡ some b' = sym (entries_lem double ops bs c u).0 ∙ found' in
            elim (List-cases c) [
              | inl none_ ↦ ground (arith, kept, named, ap (λ x. find x bs) none_)
              | inr (x, xs, letters) ↦ ground (arith, chosen, kept, letters, e)
            ]
      ]

  -- With a version asked for: the backend that is chosen is there, is eligible, has no model that is
  -- still loading and reports no other version, nor another model than the one asked for if one is.
  pub version_choice-serves :
      (key model version : List ℕ) (m : BackendManager B D) (id : List ℕ)
      → IsUnique m.backends
      → is_empty version ≡ false
      → (select_backend_for_model_version double ops key model version m).0 ≡ some id
      → Passes (may_serve_version model version) id m.backends
  unfolding select_backend_for_model_version
  version_choice-serves key model version m id u asked e =
      let fits = may_serve_version model version in
      let mv = version_key double ops model version in
      let affinity = m.model_version_affinity in
      elim (Option-cases (remembered double ops fits mv affinity m.backends)) [
        | inr (c, r) ↦
            let is_it : c ≡ id = ground (arith, asked, r, e) in
            remembered-Passes fits mv affinity m.backends id (r ∙ ap some is_it)
        | inl n ↦
            elim (Option-cases
              (choose_by double ops (reports_version model version) key m.backends)) [
                | inr (c, r) ↦
                    let is_it : c ≡ id = ground (arith, asked, n, r, e) in
                    let (b, found, passed) =
                      choose_by-Passes (reports_version model version) key m.backends id u
                        (r ∙ ap some is_it) in
                    (b, found, unfold reports_version in ground (arith, passed))
                | inl n' ↦ elim (Option-cases (choose_by double ops fits key m.backends)) [
                  | inr (c, r) ↦
                      let is_it : c ≡ id = ground (arith, asked, n, n', r, e) in
                      choose_by-Passes fits key m.backends id u (r ∙ ap some is_it)
                  | inl n'' ↦ absurd (ground (arith, asked, n, n', n'', e))
                ]
              ]
      ]

  -- As long as some backend can serve the version that is asked for, one is chosen. No backend has the
  -- empty address.
  pub version_choice_found :
      (key model version : List ℕ) (m : BackendManager B D) (id : List ℕ)
      → IsUnique m.backends
      → find [] m.backends ≡ none
      → is_empty version ≡ false
      → Passes (may_serve_version model version) id m.backends
      → (select_backend_for_model_version double ops key model version m).0 ≢ none
  unfolding select_backend_for_model_version
  version_choice_found key model version m id u named asked p e =
      let fits = may_serve_version model version in
      let mv = version_key double ops model version in
      let affinity = m.model_version_affinity in
      elim (Option-cases (remembered double ops fits mv affinity m.backends)) [
        | inr (c, r) ↦ ground (arith, asked, r, e)
        | inl n ↦
            elim (Option-cases
              (choose_by double ops (reports_version model version) key m.backends)) [
                | inr (c, r) ↦ ground (arith, asked, n, r, e)
                | inl n' ↦ elim (Option-cases (choose_by double ops fits key m.backends)) [
                  | inr (c, r) ↦ ground (arith, asked, n, n', r, e)
                  | inl n'' ↦ choose_by-ne-none fits key m.backends id u named p n''
                ]
              ]
      ]
