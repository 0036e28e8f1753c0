-- ===== src/Balancer/Manager/Steps.antt =====
-- BackendManager: the settings that keep the balancer and the backends in step, and the removal,
-- which does not.
pub mod Reports
pub mod Choices
use linux_highperf_proxy.Base.{
  ℕ, ◌≡◌, ◌<◌, refl, List, none, some, Option-cases, Bool, Bool-cases, true, false, inl, inr, not,
  ◌&&◌, ◌||◌, if◌then◌else◌, arith,
}
use linux_highperf_proxy.Base.Bytes.{bytes_eq, bytes_eq_refl}
use linux_highperf_proxy.Base.Int.{ℤ, pos, negsuc}
use linux_highperf_proxy.Base.Maps.{find, put, remove, find-put, find-remove}
use linux_highperf_proxy.Balancer.Manager.{
  Double, Balancer, BackendInfo, BackendManager, is_eligible, warms_up, gated, at_least_one,
  rebuild_balancer, new_backend, add_backend, remove_backend, set_backend_online,
  set_backend_base_weight, update_backend_metrics, set_backend_loaded_model,
}
use linux_highperf_proxy.Balancer.Manager.Sync.{
  IsBalancer, put-AllWeights, find-AllWeights, remove-AllWeights, put-IsUnique, remove-IsUnique,
  eligible_at, InSync, reweigh-InSync, changed-InSync, rebuild_balancer-knows, tell-knows,
  known_before,
}

module _ {B : Type 0} {D : Type 0} (double : Double D) (ops : Balancer B D)
    (knows : B → List ℕ → Bool) (laws : IsBalancer B D ops knows) where
  abbrev pub Synced : BackendManager B D → Type 0
  Synced m = InSync double ops knows laws m

  new_weight :
      (id : List ℕ) (weight : ℤ) (m : BackendManager B D)
      → let info = new_backend double ops weight in
        0 < (if warms_up m then gated m.warmup_model info else info).weight
  unfolding new_backend gated at_least_one
  new_weight id (pos n) m = ground arith
  new_weight id (negsuc n) m = ground arith

  pub found_weight :
      (id : List ℕ) (b : BackendInfo D) (m : BackendManager B D)
      → Synced m
      → find id m.backends ≡ some b
      → 0 < b.weight
  found_weight id b m s e = find-AllWeights id b m.backends s.weights e

  pub add_backend-InSync :
      (id : List ℕ) (weight : ℤ) (m : BackendManager B D)
      → Synced m
      → Synced (add_backend double ops id weight m).1
  unfolding add_backend
  add_backend-InSync id weight m s =
      let info = new_backend double ops weight in
      let info' = if warms_up m then gated m.warmup_model info else info in
      let m' = record m { backends = put id info' m.backends } in
      let u = put-IsUnique id info' m.backends s.unique in
      let hs = put-AllWeights id info' m.backends (new_weight id weight m) s.weights in
      record {
        unique = unfold rebuild_balancer in u;
        weights = unfold rebuild_balancer in hs;
        knows-eligible_at = λ j.
            unfold eligible_at rebuild_balancer in
            ground (
              arith,
              rebuild_balancer-knows double ops knows laws m' j u hs,
              s.knows-eligible_at j,
              find-put id j info' m.backends,
            );
      }

  pub set_backend_online-InSync :
      (id : List ℕ) (online : Bool) (m : BackendManager B D)
      → Synced m
      → Synced (set_backend_online double ops id online m).2
  unfolding set_backend_online
  set_backend_online-InSync id online m s = elim (Option-cases (find id m.backends)) [
    | inl n ↦ rw (n, set_backend_online) s
    | inr (b, e) ↦
        let warm = online && warms_up m in
        let b' = record b { online = online } in
        let b'' = if warm then gated m.warmup_model b' else b' in
        let heavy : 0 < b''.weight = unfold gated in ground (arith, found_weight id b m s e) in
        elim (Bool-cases ((online && b.online) || (not online && not b.online))) [
          | inl t ↦ rw (e, set_backend_online) (rw (t, set_backend_online) s)
          | inr t ↦
              rw (e, set_backend_online)
                (rw (t, set_backend_online)
                  (changed-InSync double ops knows laws id b'' m _ s heavy refl (λ j. ground (
                    arith,
                    heavy,
                    known_before double ops knows laws id j b m s e,
                    laws.knows-add id b''.weight m.balancer j,
                    laws.knows-remove id m.balancer j,
                  ))))
        ]
  ]

  pub set_backend_base_weight-InSync :
      (id : List ℕ) (base : ℤ) (m : BackendManager B D)
      → Synced m
      → Synced (set_backend_base_weight double ops id base m).1
  unfolding set_backend_base_weight
  set_backend_base_weight-InSync id base m s = elim (Option-cases (find id m.backends)) [
    | inl n ↦ rw (n, set_backend_base_weight) s
    | inr (b, e) ↦
        rw (e, set_backend_base_weight)
          (reweigh-InSync double ops knows laws id b _ m m s e (unfold is_eligible in refl) refl
            (λ j. refl))
  ]

  pub update_backend_metrics-InSync :
      (id : List ℕ) (queue : ℤ) (gpu : D) (used total : ℤ) (m : BackendManager B D)
      → Synced m
      → Synced (update_backend_metrics double ops id queue gpu used total m).1
  unfolding update_backend_metrics
  update_backend_metrics-InSync id queue gpu used total m s =
      elim (Option-cases (find id m.backends)) [
        | inl n ↦ rw (n, update_backend_metrics) s
        | inr (b, e) ↦
            rw (e, update_backend_metrics)
              (reweigh-InSync double ops knows laws id b _ m _ s e
                (unfold is_eligible in ground arith) refl
                (λ j. ground (
                  arith,
                  laws.knows-queue id queue m.balancer j,
                  laws.knows-gpu id
                      (if double.less (double.lit 1 1) gpu then double.lit 1 1 else gpu) used total
                      m.balancer j,
                  laws.knows-gpu id
                      (if double.less (double.lit 1 1) gpu then double.lit 1 1 else gpu) used total
                      (ops.record_queue_length id queue m.balancer) j,
                )))
      ]

  pub set_backend_loaded_model-InSync :
      (id model version : List ℕ) (loaded : Bool) (m : BackendManager B D)
      → Synced m
      → Synced (set_backend_loaded_model double ops id model version loaded m).1
  unfolding set_backend_loaded_model
  set_backend_loaded_model-InSync id model version loaded m s =
      elim (Option-cases (find id m.backends)) [
        | inl n ↦ rw (n, set_backend_loaded_model) s
        | inr (b, e) ↦
            rw (e, set_backend_loaded_model)
              (changed-InSync double ops knows laws id _ m _ s
                (ground (arith, found_weight id b m s e)) refl
                (λ j.
                  tell-knows double ops knows laws id b _ m m.balancer j s
                    (ground (arith, found_weight id b m s e)) e refl))
      ]

  -- A backend that is removed stays known to the balancer if it was eligible: RebuildBalancer goes over
  -- the backends that are left. The others are known exactly if they are eligible, as before.
  pub remove_backend_stale :
      (id : List ℕ) (b : BackendInfo D) (m : BackendManager B D)
      → Synced m
      → find id m.backends ≡ some b
      → is_eligible b ≡ true
      → let m' = remove_backend double ops id m in
        (find id m'.backends ≡ none)
        × (knows m'.balancer id ≡ true)
        × ((j : List ℕ) → bytes_eq id j ≡ false → knows m'.balancer j ≡ eligible_at j m'.backends)
  unfolding remove_backend
  remove_backend_stale id b m s e up =
      let m' = record m { backends = remove id m.backends } in
      let u = remove-IsUnique id m.backends s.unique in
      let hs = remove-AllWeights id m.backends s.weights in
      let gone = find-remove id id m.backends in
      let rebuilt = λ (j : List ℕ). rebuild_balancer-knows double ops knows laws m' j u hs in
      unfold rebuild_balancer eligible_at in
      (
        ground (arith, gone, bytes_eq_refl id),
        ground (
          arith,
          gone,
          bytes_eq_refl id,
          rebuilt id,
          known_before double ops knows laws id id b m s e,
          up,
        ),
        λ j other.
            ground (arith, other, find-remove id j m.backends, rebuilt j, s.knows-eligible_at j),
      )
