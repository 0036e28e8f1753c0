-- ===== src/Balancer/Manager/Signals.antt =====
-- src/balancer/BackendManager.cpp: what connections, health checks and readiness checks report.
use linux_highperf_proxy.Base.{
  ℕ, ◌+◌, ◌-◌, List, none, some, Bool, true, false, not, ◌&&◌, if◌then◌else◌,
}
use linux_highperf_proxy.Base.Int.{pos}
use linux_highperf_proxy.Base.Maps.{find, put}
use linux_highperf_proxy.Balancer.Manager.{
  Double, Balancer, BackendInfo, BackendManager, AiResult, is_empty, is_eligible, recompute_weight,
  reweigh, tell, note_affinity, version_key,
}

module _ {B : Type 0} {D : Type 0} (double : Double D) (ops : Balancer B D) where
  -- A queue length that no one reports mirrors the active connections.
  unfoldable pub count_connection :
      List ℕ → ℕ → BackendInfo D → BackendManager B D → BackendManager B D
  count_connection id active b m =
      let b' = record b { active_connections = active } in
      if b.has_queue_len
      then reweigh double ops id b' m
      else reweigh double ops id (record b' { queue_len = pos active })
          (record m { balancer = ops.record_queue_length id (pos active) m.balancer })

  unfoldable pub on_backend_connection_start : List ℕ → BackendManager B D → BackendManager B D
  on_backend_connection_start id m =
      let m' = elim (find id m.backends) as (λ _. BackendManager B D) [
        | none ↦ m
        | some b ↦ count_connection id (b.active_connections + 1) b m
      ] in
      record m' { balancer = ops.on_connection_start id m'.balancer }

  unfoldable pub on_backend_connection_end : List ℕ → BackendManager B D → BackendManager B D
  on_backend_connection_end id m =
      let m' = elim (find id m.backends) as (λ _. BackendManager B D) [
        | none ↦ m
        | some b ↦ count_connection id (b.active_connections - 1) b m
      ] in
      record m' { balancer = ops.on_connection_end id m'.balancer }

  -- The moving average, with a fifth of the new value.
  unfoldable pub moving_average : D → D → D
  moving_average old ms =
      let alpha = double.lit 2 10 in
      if double.at_most old (double.lit 0 1)
      then ms
      else double.add (double.mul old (double.sub (double.lit 1 1) alpha)) (double.mul ms alpha)

  unfoldable pub record_backend_response_time_ms :
      List ℕ → D → BackendManager B D → BackendManager B D
  record_backend_response_time_ms id ms m =
      let m' = elim (find id m.backends) as (λ _. BackendManager B D) [
        | none ↦ m
        | some b ↦
            reweigh double ops id
              (record b {
                successes = b.successes + 1;
                ewma_response_ms = moving_average b.ewma_response_ms ms;
              })
              m
      ] in
      record m' { balancer = ops.record_response_time_ms id ms m'.balancer }

  unfoldable pub report_backend_failure : List ℕ → BackendManager B D → BackendManager B D
  report_backend_failure id m = elim (find id m.backends) [
    | none ↦ m
    | some b ↦
        let b' = record b { failures = b.failures + 1 } in
        if b.healthy
        then (record m {
          backends = put id (record b' { healthy = false }) m.backends;
          balancer = ops.remove_node id m.balancer;
        })
        else (record m { backends = put id b' m.backends })
  ]

  -- The callback of RunHealthCheck.
  unfoldable pub on_health_result : List ℕ → Bool → BackendManager B D → BackendManager B D
  on_health_result id healthy m = elim (find id m.backends) [
    | none ↦ m
    | some b ↦
        let b' = record b { healthy = healthy } in
        record m {
          backends = put id b' m.backends;
          balancer = tell double ops id (is_eligible b) b' m.balancer;
        }
  ]

  -- What a result says of queue and GPU.
  unfoldable pub take_load : List ℕ → AiResult D → BackendInfo D → B → BackendInfo D × B
  take_load id r b bal =
      let (b1, bal1) = elim r.queue_len as (λ _. BackendInfo D × B) [
        | none ↦ (b, bal)
        | some q ↦
            (record b { has_queue_len = true; queue_len = q }, ops.record_queue_length id q bal)
      ] in
      elim r.gpu [
        | none ↦ (b1, bal1)
        | some (util, used, total) ↦ (
          record b1 {
            has_gpu = true;
            gpu_util01 = util;
            vram_used_mb = used;
            vram_total_mb = total;
          },
          ops.record_gpu_util id util used total bal1,
        )
      ]

  -- What it says of the model.
  unfoldable pub take_model : AiResult D → BackendInfo D → BackendInfo D
  take_model r b =
      let b1 = elim r.model_loaded as (λ _. BackendInfo D) [
        | none ↦ b
        | some loaded ↦ record b {
          ai_ready_present = true;
          ai_ready = loaded;
          has_model_loaded = true;
          model_loaded = loaded;
        }
      ] in
      let b2 = elim r.model_name as (λ _. BackendInfo D) [
        | none ↦ b1
        | some name ↦ record b1 { has_model_name = true; model_name = name }
      ] in
      elim r.model_version [
        | none ↦ b2
        | some version ↦ record b2 { has_model_version = true; model_version = version }
      ]

  -- A model, or version, that is reported as loaded is remembered if no backend is known for it.
  unfoldable pub remember_report :
      Bool → List ℕ → List ℕ → List ℕ → List (List ℕ × List ℕ) → List (List ℕ × List ℕ)
  remember_report loaded word key id affinity =
      if loaded && not (is_empty word)
      then note_affinity double ops true key id affinity
      else affinity

  unfoldable pub on_ai_result : Bool → List ℕ → AiResult D → BackendManager B D → BackendManager B D
  on_ai_result good id r m = elim (find id m.backends) [
    | none ↦ m
    | some b ↦
        let (b1, bal1) = take_load id r b m.balancer in
        let b2 = take_model r b1 in
        let m' = reweigh double ops id b2 (record m {
          balancer = bal1;
          model_affinity = elim r.model_name as (λ _. List (List ℕ × List ℕ)) [
            | none ↦ m.model_affinity
            | some name ↦ remember_report b2.model_loaded name name id m.model_affinity
          ];
          model_version_affinity = elim r.model_version as (λ _. List (List ℕ × List ℕ)) [
            | none ↦ m.model_version_affinity
            | some version ↦
                remember_report b2.model_loaded version
                  (version_key double ops b2.model_name version) id m.model_version_affinity
          ];
        }) in
        let b3 = recompute_weight double ops m.auto_weight_adjust b2 in
        if good
        then (record m' { balancer = tell double ops id (is_eligible b) b3 m'.balancer })
        else m
  ]
