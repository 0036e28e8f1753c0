-- ===== src/Balancer/Manager/Steps/Reports.antt =====
-- BackendManager: what connections, answers and health checks report keeps the balancer and the
-- backends in step.
use linux_highperf_proxy.Base.{
  ℕ, ◌+◌, ◌-◌, ◌≡◌, ◌<◌, refl, List, some, Option-cases, Bool, Bool-cases, true, false, inl, inr,
  not, ◌&&◌, ◌==◌, if◌then◌else◌, arith,
}
use linux_highperf_proxy.Base.Bytes.{bytes_eq}
use linux_highperf_proxy.Base.Int.{pos}
use linux_highperf_proxy.Base.Maps.{find}
use linux_highperf_proxy.Balancer.Manager.{
  Double, Balancer, BackendInfo, BackendManager, AiResult, is_eligible, recompute_weight, reweigh,
  tell,
}
use linux_highperf_proxy.Balancer.Manager.Signals.{
  count_connection, on_backend_connection_start, on_backend_connection_end,
  record_backend_response_time_ms, report_backend_failure, on_health_result, take_load, take_model,
  on_ai_result, moving_average,
}
use linux_highperf_proxy.Balancer.Manager.Sync.{
  IsBalancer, recompute_weight_pos, reweigh-InSync, changed-InSync, same-InSync, tell-knows,
  known_before,
}
use linux_highperf_proxy.Balancer.Manager.Steps.{Synced, found_weight}

module _ {B : Type 0} {D : Type 0} (double : Double D) (ops : Balancer B D)
    (knows : B → List ℕ → Bool) (laws : IsBalancer B D ops knows) where
  pub count_connection-InSync :
      (id : List ℕ) (active : ℕ) (b : BackendInfo D) (m : BackendManager B D)
      → Synced double ops knows laws m
      → find id m.backends ≡ some b
      → Synced double ops knows laws (count_connection double ops id active b m)
  unfolding count_connection
  count_connection-InSync id active b m s e = elim (Bool-cases b.has_queue_len) [
    | inl t ↦ rw t (
        reweigh-InSync double ops knows laws id b _ m m s e (unfold is_eligible in refl) refl
          (λ j. refl))
    | inr t ↦ rw t (
        reweigh-InSync double ops knows laws id b _ m _ s e (unfold is_eligible in refl) refl
          (λ j. laws.knows-queue id (pos active) m.balancer j))
  ]

  pub on_backend_connection_start-InSync :
      (id : List ℕ) (m : BackendManager B D)
      → Synced double ops knows laws m
      → Synced double ops knows laws (on_backend_connection_start double ops id m)
  unfolding on_backend_connection_start
  on_backend_connection_start-InSync id m s = elim (Option-cases (find id m.backends)) [
    | inl n ↦
        rw (n, on_backend_connection_start)
          (same-InSync double ops knows laws m _ s refl (λ j. laws.knows-start id m.balancer j))
    | inr (b, e) ↦
        rw (e, on_backend_connection_start)
          (same-InSync double ops knows laws
            (count_connection double ops id (b.active_connections + 1) b m) _
            (count_connection-InSync id (b.active_connections + 1) b m s e) refl
            (λ j. laws.knows-start id _ j))
  ]

  pub on_backend_connection_end-InSync :
      (id : List ℕ) (m : BackendManager B D)
      → Synced double ops knows laws m
      → Synced double ops knows laws (on_backend_connection_end double ops id m)
  unfolding on_backend_connection_end
  on_backend_connection_end-InSync id m s = elim (Option-cases (find id m.backends)) [
    | inl n ↦
        rw (n, on_backend_connection_end)
          (same-InSync double ops knows laws m _ s refl (λ j. laws.knows-end id m.balancer j))
    | inr (b, e) ↦
        rw (e, on_backend_connection_end)
          (same-InSync double ops knows laws
            (count_connection double ops id (b.active_connections - 1) b m) _
            (count_connection-InSync id (b.active_connections - 1) b m s e) refl
            (λ j. laws.knows-end id _ j))
  ]

  pub record_backend_response_time_ms-InSync :
      (id : List ℕ) (ms : D) (m : BackendManager B D)
      → Synced double ops knows laws m
      → Synced double ops knows laws (record_backend_response_time_ms double ops id ms m)
  unfolding record_backend_response_time_ms
  record_backend_response_time_ms-InSync id ms m s = elim (Option-cases (find id m.backends)) [
    | inl n ↦
        rw (n, record_backend_response_time_ms)
          (same-InSync double ops knows laws m _ s refl (λ j. laws.knows-time id ms m.balancer j))
    | inr (b, e) ↦
        let b' = record b {
          successes = b.successes + 1;
          ewma_response_ms = moving_average double ops b.ewma_response_ms ms;
        } in
        rw (e, record_backend_response_time_ms)
          (same-InSync double ops knows laws (reweigh double ops id b' m) _
            (reweigh-InSync double ops knows laws id b b' m m s e (unfold is_eligible in refl) refl
              (λ j. refl))
            refl (λ j. laws.knows-time id ms _ j))
  ]

  pub report_backend_failure-InSync :
      (id : List ℕ) (m : BackendManager B D)
      → Synced double ops knows laws m
      → Synced double ops knows laws (report_backend_failure double ops id m)
  unfolding report_backend_failure
  report_backend_failure-InSync id m s = elim (Option-cases (find id m.backends)) [
    | inl n ↦ rw (n, report_backend_failure) s
    | inr (b, e) ↦ elim (Bool-cases b.healthy) [
      | inl t ↦
          rw (e, report_backend_failure)
            (rw (t, report_backend_failure)
              (changed-InSync double ops knows laws id _ m _ s
                (found_weight double ops knows laws id b m s e) refl
                (λ j. unfold is_eligible in ground (arith, laws.knows-remove id m.balancer j))))
      | inr t ↦
          rw (e, report_backend_failure)
            (rw (t, report_backend_failure)
              (changed-InSync double ops knows laws id _ m _ s
                (found_weight double ops knows laws id b m s e) refl
                (λ j.
                  unfold is_eligible in
                  ground (arith, known_before double ops knows laws id j b m s e))))
    ]
  ]

  pub on_health_result-InSync :
      (id : List ℕ) (healthy : Bool) (m : BackendManager B D)
      → Synced double ops knows laws m
      → Synced double ops knows laws (on_health_result double ops id healthy m)
  unfolding on_health_result
  on_health_result-InSync id healthy m s = elim (Option-cases (find id m.backends)) [
    | inl n ↦ rw (n, on_health_result) s
    | inr (b, e) ↦
        rw (e, on_health_result)
          (changed-InSync double ops knows laws id _ m _ s
            (found_weight double ops knows laws id b m s e) refl
            (λ j.
              tell-knows double ops knows laws id b _ m m.balancer j s
                (found_weight double ops knows laws id b m s e) e refl))
  ]

  take_load-knows :
      (id j : List ℕ) (r : AiResult D) (b : BackendInfo D) (bal : B)
      → knows (take_load double ops id r b bal).1 j ≡ knows bal j
  unfolding take_load
  take_load-knows id j r b bal = elim (Option-cases r.queue_len) [
    | inl n ↦ elim (Option-cases r.gpu) [
      | inl n' ↦ ground (arith, n, n')
      | inr ((u, used, total), e') ↦ ground (arith, n, e', laws.knows-gpu id u used total bal j)
    ]
    | inr (q, e) ↦ elim (Option-cases r.gpu) [
      | inl n' ↦ ground (arith, e, n', laws.knows-queue id q bal j)
      | inr ((u, used, total), e') ↦ ground (
        arith,
        e,
        e',
        laws.knows-queue id q bal j,
        laws.knows-gpu id u used total (ops.record_queue_length id q bal) j,
      )
    ]
  ]

  -- A weight and a change of eligibility are told one after the other.
  told_twice :
      (id j : List ℕ) (b b' : BackendInfo D) (changed : Bool) (m : BackendManager B D) (bal : B)
      → Synced double ops knows laws m
      → 0 < b'.weight
      → find id m.backends ≡ some b
      → knows bal j ≡ knows m.balancer j
      → knows
          (tell double ops id
            (is_eligible b)
            b'
            (if changed && is_eligible b' then ops.add_node id b'.weight bal else bal))
          j
        ≡ (if bytes_eq id j then is_eligible b' else knows m.balancer j)
  unfolding tell
  told_twice id j b b' changed m bal s heavy e h = ground (
    arith,
    h,
    known_before double ops knows laws id j b m s e,
    laws.knows-add id b'.weight bal j,
    laws.knows-remove id bal j,
    laws.knows-add id b'.weight (ops.add_node id b'.weight bal) j,
  )

  pub on_ai_result-InSync :
      (good : Bool) (id : List ℕ) (r : AiResult D) (m : BackendManager B D)
      → Synced double ops knows laws m
      → Synced double ops knows laws (on_ai_result double ops good id r m)
  unfolding on_ai_result reweigh
  on_ai_result-InSync false id r m s = elim (Option-cases (find id m.backends)) [
    | inl n ↦ rw (n, on_ai_result) s
    | inr (b, e) ↦ rw (e, on_ai_result) s
  ]
  on_ai_result-InSync true id r m s = elim (Option-cases (find id m.backends)) [
    | inl n ↦ rw (n, on_ai_result) s
    | inr (b, e) ↦
        let loaded = take_load double ops id r b m.balancer in
        let b2 = take_model double ops r loaded.0 in
        let b3 = recompute_weight double ops m.auto_weight_adjust b2 in
        let heavy = recompute_weight_pos double ops knows laws m.auto_weight_adjust b2 in
        rw (e, on_ai_result)
          (changed-InSync double ops knows laws id b3 m _ s heavy refl (λ j.
            told_twice id j b b3 (not (b3.weight == b2.weight)) m loaded.1 s heavy e
              (take_load-knows id j r b m.balancer)))
  ]
