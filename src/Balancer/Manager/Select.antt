-- ===== src/Balancer/Manager/Select.antt =====
-- src/balancer/BackendManager.cpp: the choice of a backend for a request.
use linux_highperf_proxy.Base.{
  ℕ, ◌+◌, ◌-◌, ◌*◌, ◌%◌, ◌^◌, List, [], ◌∷◌, Option, none, some, Bool, not, ◌&&◌, ◌||◌, ltb,
  if◌then◌else◌, max,
}
use linux_highperf_proxy.Base.Bytes.{bytes_eq}
use linux_highperf_proxy.Base.Maps.{find, put, remove}
use linux_highperf_proxy.Balancer.Manager.{
  Double, Balancer, BackendInfo, BackendManager, is_empty, is_eligible, entries, version_key,
}
use Prim.Native.Nat.{bit_xor}

unfoldable pub fnv1a64_from : ℕ → List ℕ → ℕ
fnv1a64_from h [] = h
fnv1a64_from h (c ∷ s) = fnv1a64_from (bit_xor h c * 1099511628211 % 2 ^ 64) s

unfoldable pub fnv1a64 : List ℕ → ℕ
fnv1a64 s = fnv1a64_from 1469598103934665603 s

unfoldable pub sum_weights : List (List ℕ × ℕ) → ℕ
sum_weights [] = 0
sum_weights ((id, w) ∷ cs) = w + sum_weights cs

-- The loop that subtracts weights until the number is negative.
unfoldable pub pick_weighted : ℕ → List (List ℕ × ℕ) → Option (List ℕ)
pick_weighted pick [] = none
pick_weighted pick ((id, w) ∷ cs) =
    let rest = pick_weighted (pick - w) cs in if ltb pick w then some id else rest

unfoldable pub choose : List ℕ → List (List ℕ × ℕ) → Option (List ℕ)
choose key [] = none
choose key (c ∷ cs) = pick_weighted (fnv1a64 key % sum_weights (c ∷ cs)) (c ∷ cs)

module _ {D : Type 0} where
  -- The backends that pass the test, with their weights.
  unfoldable pub candidates :
      (BackendInfo D → Bool) → List (List ℕ × BackendInfo D) → List (List ℕ × ℕ)
  candidates test [] = []
  candidates test ((id, b) ∷ bs) =
      let rest = candidates test bs in if test b then (id, max 1 b.weight) ∷ rest else rest

  unfoldable pub model_ready : BackendInfo D → Bool
  model_ready b = not b.has_model_loaded || b.model_loaded

  -- No other model, or version, is reported.
  unfoldable pub model_fits : List ℕ → BackendInfo D → Bool
  model_fits model b = not b.has_model_name || bytes_eq b.model_name model

  unfoldable pub version_fits : List ℕ → BackendInfo D → Bool
  version_fits version b = not b.has_model_version || bytes_eq b.model_version version

  -- The tests of SelectBackendForModel.
  unfoldable pub may_serve : List ℕ → BackendInfo D → Bool
  may_serve model b = is_eligible b && (model_ready b && model_fits model b)

  unfoldable pub reports_model : List ℕ → BackendInfo D → Bool
  reports_model model b = may_serve model b && b.has_model_name

  -- The tests of SelectBackendForModelVersion; without a model any will do.
  unfoldable pub may_serve_version : List ℕ → List ℕ → BackendInfo D → Bool
  may_serve_version model version b =
      is_eligible b
      && (model_ready b && ((is_empty model || model_fits model b) && version_fits version b))

  unfoldable pub reports_version : List ℕ → List ℕ → BackendInfo D → Bool
  reports_version model version b =
      may_serve_version model version b
      && (b.has_model_version && (is_empty model || b.has_model_name))

module _ {B : Type 0} {D : Type 0} (double : Double D) (ops : Balancer B D) where
  -- The address, `none` for the empty one.
  unfoldable pub select_backend : List ℕ → BackendManager B D → Option (List ℕ) × BackendManager B D
  select_backend key m =
      let (id, bal) = ops.get_node key m.balancer in
      let m' = record m { balancer = bal } in
      if is_empty id
      then (none, m')
      else (elim (find id m.backends) [ none ↦ (none, m') | some b ↦ (some id, m') ])

  -- The backend that is remembered, if it still passes the test.
  unfoldable pub remembered :
      (BackendInfo D → Bool)
      → List ℕ
      → List (List ℕ × List ℕ)
      → List (List ℕ × BackendInfo D)
      → Option (List ℕ)
  remembered test key affinity backends = elim (find key affinity) [
    | none ↦ none
    | some id ↦
        if is_empty id
        then none
        else (elim (find id backends) [ none ↦ none | some b ↦ if test b then some id else none ])
  ]

  -- One that is remembered and did not pass is forgotten.
  unfoldable pub forget : List ℕ → List (List ℕ × List ℕ) → List (List ℕ × List ℕ)
  forget key affinity = elim (find key affinity) [
    | none ↦ affinity
    | some id ↦ if is_empty id then affinity else remove key affinity
  ]

  -- A choice among the backends that pass the test; it is one of them.
  unfoldable pub choose_by :
      (BackendInfo D → Bool) → List ℕ → List (List ℕ × BackendInfo D) → Option (List ℕ)
  choose_by test key backends = elim (choose key (candidates test (entries double ops backends))) [
    | none ↦ none
    | some id ↦
        if is_empty id then none else (elim (find id backends) [ none ↦ none | some b ↦ some id ])
  ]

  unfoldable pub select_backend_for_model :
      List ℕ → List ℕ → BackendManager B D → Option (List ℕ) × BackendManager B D
  select_backend_for_model key model m =
      let m1 = record m { model_affinity = forget model m.model_affinity } in
      let keep : List ℕ → Option (List ℕ) × BackendManager B D =
        λ id. (some id, record m1 { model_affinity = put model id m1.model_affinity }) in
      if is_empty model
      then select_backend key m
      else (elim (remembered (may_serve model) model m.model_affinity m.backends) [
        | some id ↦ (some id, m)
        | none ↦ elim (choose_by (reports_model model) key m.backends) [
          | some id ↦ keep id
          | none ↦ elim (choose_by (may_serve model) key m.backends) [
            | some id ↦ keep id
            | none ↦
                let r = select_backend key m1 in
                elim r.0 [
                  | none ↦ (none, r.1)
                  | some id ↦
                      (some id, record r.1 { model_affinity = put model id r.1.model_affinity })
                ]
          ]
        ]
      ])

  unfoldable pub select_backend_for_model_version :
      List ℕ → List ℕ → List ℕ → BackendManager B D → Option (List ℕ) × BackendManager B D
  select_backend_for_model_version key model version m =
      let mv = version_key double ops model version in
      let m1 = record m { model_version_affinity = forget mv m.model_version_affinity } in
      let keep : List ℕ → Option (List ℕ) × BackendManager B D = λ id.
        (some id, record m1 { model_version_affinity = put mv id m1.model_version_affinity }) in
      if is_empty version
      then select_backend_for_model key model m
      else (elim (remembered (may_serve_version model version) mv m.model_version_affinity
          m.backends) [
            | some id ↦ (some id, m)
            | none ↦ elim (choose_by (reports_version model version) key m.backends) [
              | some id ↦ keep id
              | none ↦ elim (choose_by (may_serve_version model version) key m.backends) [
                | some id ↦ keep id
                | none ↦ (none, m1)
              ]
            ]
          ])
