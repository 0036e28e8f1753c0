-- ===== src/Balancer/Manager/Steps/Choices.antt =====
-- BackendManager: a choice keeps the balancer and the backends as they are.
use linux_highperf_proxy.Base.{ℕ, ◌≡◌, List, Option-cases, Bool, inl, inr, arith}
use linux_highperf_proxy.Base.Maps.{find}
use linux_highperf_proxy.Balancer.Manager.{Double, Balancer, BackendManager, version_key}
use linux_highperf_proxy.Balancer.Manager.Select.{
  select_backend, select_backend_for_model, select_backend_for_model_version, forget, remembered,
  choose_by, may_serve, reports_model, may_serve_version, reports_version,
}
use linux_highperf_proxy.Balancer.Manager.Sync.{IsBalancer}

module _ {B : Type 0} {D : Type 0} (double : Double D) (ops : Balancer B D)
    (knows : B → List ℕ → Bool) (laws : IsBalancer B D ops knows) where
  -- A choice leaves the backends and what the balancer knows.
  abbrev pub Kept : BackendManager B D → BackendManager B D → Type 0
  Kept m m' = (m'.backends ≡ m.backends) × ((j : List ℕ) → knows m'.balancer j ≡ knows m.balancer j)

  select_backend-Kept :
      (key : List ℕ) (m : BackendManager B D) → Kept m (select_backend double ops key m).1
  unfolding select_backend
  select_backend-Kept key m =
      elim (Option-cases (find (ops.get_node key m.balancer).0 m.backends)) [
        | inl n ↦ (ground (arith, n), λ j. ground (arith, n, laws.knows-get key m.balancer j))
        | inr (b, e) ↦ (ground (arith, e), λ j. ground (arith, e, laws.knows-get key m.balancer j))
      ]

  select_backend_for_model-Kept :
      (key model : List ℕ) (m : BackendManager B D)
      → Kept m (select_backend_for_model double ops key model m).1
  unfolding select_backend_for_model
  select_backend_for_model-Kept key model m =
      let m1 = record m { model_affinity = forget double ops model m.model_affinity } in
      let plain = select_backend-Kept key m in
      let last = select_backend-Kept key m1 in
      elim (Option-cases
        (remembered double ops (may_serve model) model m.model_affinity m.backends)) [
          | inr (id, e) ↦ (ground (arith, e, plain.0), λ j. ground (arith, e, plain.1 j))
          | inl n ↦
              elim (Option-cases (choose_by double ops (reports_model model) key m.backends)) [
                | inr (id, e) ↦
                    (ground (arith, n, e, plain.0), λ j. ground (arith, n, e, plain.1 j))
                | inl n' ↦
                    elim (Option-cases (choose_by double ops (may_serve model) key m.backends)) [
                      | inr (id, e) ↦ (
                        ground (arith, n, n', e, plain.0),
                        λ j. ground (arith, n, n', e, plain.1 j),
                      )
                      | inl n'' ↦ elim (Option-cases (select_backend double ops key m1).0) [
                        | inl q ↦ (
                          ground (arith, n, n', n'', q, plain.0, last.0),
                          λ j. ground (arith, n, n', n'', q, plain.1 j, last.1 j),
                        )
                        | inr (id, q) ↦ (
                          ground (arith, n, n', n'', q, plain.0, last.0),
                          λ j. ground (arith, n, n', n'', q, plain.1 j, last.1 j),
                        )
                      ]
                    ]
              ]
        ]

  pub select_backend_for_model_version-Kept :
      (key model version : List ℕ) (m : BackendManager B D)
      → Kept m (select_backend_for_model_version double ops key model version m).1
  unfolding select_backend_for_model_version
  select_backend_for_model_version-Kept key model version m =
      let plain = select_backend_for_model-Kept key model m in
      let fits = may_serve_version model version in
      let mv = version_key double ops model version in
      elim (Option-cases (remembered double ops fits mv m.model_version_affinity m.backends)) [
        | inr (id, e) ↦ (ground (arith, e, plain.0), λ j. ground (arith, e, plain.1 j))
        | inl n ↦
            elim (Option-cases
              (choose_by double ops (reports_version model version) key m.backends)) [
                | inr (id, e) ↦
                    (ground (arith, n, e, plain.0), λ j. ground (arith, n, e, plain.1 j))
                | inl n' ↦ elim (Option-cases (choose_by double ops fits key m.backends)) [
                  | inr (id, e) ↦
                      (ground (arith, n, n', e, plain.0), λ j. ground (arith, n, n', e, plain.1 j))
                  | inl n'' ↦ (
                    ground (arith, n, n', n'', plain.0),
                    λ j. ground (arith, n, n', n'', plain.1 j),
                  )
                ]
              ]
      ]
