-- ===== src/Balancer/Manager/History.antt =====
-- BackendManager: any sequence of operations.
use linux_highperf_proxy.Base.{ℕ, refl, List, [], ◌∷◌, Bool}
use linux_highperf_proxy.Base.Int.{ℤ}
use linux_highperf_proxy.Balancer.Manager.{
  Double, Balancer, BackendManager, AiResult, configure_warmup, add_backend, set_backend_online,
  set_backend_base_weight, update_backend_metrics, set_backend_loaded_model,
}
use linux_highperf_proxy.Balancer.Manager.Signals.{
  on_backend_connection_start, on_backend_connection_end, record_backend_response_time_ms,
  report_backend_failure, on_health_result, on_ai_result,
}
use linux_highperf_proxy.Balancer.Manager.Select.{select_backend_for_model_version}
use linux_highperf_proxy.Balancer.Manager.Sync.{IsBalancer, InSync, same-InSync}
use linux_highperf_proxy.Balancer.Manager.Steps.{
  add_backend-InSync, set_backend_online-InSync, set_backend_base_weight-InSync,
  update_backend_metrics-InSync, set_backend_loaded_model-InSync,
}
use linux_highperf_proxy.Balancer.Manager.Steps.Reports.{
  on_backend_connection_start-InSync, on_backend_connection_end-InSync,
  record_backend_response_time_ms-InSync, report_backend_failure-InSync, on_health_result-InSync,
  on_ai_result-InSync,
}
use linux_highperf_proxy.Balancer.Manager.Steps.Choices.{select_backend_for_model_version-Kept}

-- The operations of a manager other than the removal of a backend.
pub data Operation (D : Type 0) : Type 0 where
  added : List ℕ → ℤ → Operation D
  set_online : List ℕ → Bool → Operation D
  set_weight : List ℕ → ℤ → Operation D
  reported : List ℕ → ℤ → D → ℤ → ℤ → Operation D
  set_model : List ℕ → List ℕ → List ℕ → Bool → Operation D
  started : List ℕ → Operation D
  ended : List ℕ → Operation D
  answered : List ℕ → D → Operation D
  failed_once : List ℕ → Operation D
  checked : List ℕ → Bool → Operation D
  ai_checked : Bool → List ℕ → AiResult D → Operation D
  warmup_set : Bool → List ℕ → Operation D
  chosen : List ℕ → List ℕ → List ℕ → Operation D

module _ {B : Type 0} {D : Type 0} (double : Double D) (ops : Balancer B D) where
  unfoldable pub perform : Operation D → BackendManager B D → BackendManager B D
  perform (added id w) m = (add_backend double ops id w m).1
  perform (set_online id on) m = (set_backend_online double ops id on m).2
  perform (set_weight id w) m = (set_backend_base_weight double ops id w m).1
  perform (reported id q u used total) m = (update_backend_metrics double ops id q u used total m).1
  perform (set_model id model version loaded) m =
      (set_backend_loaded_model double ops id model version loaded m).1
  perform (started id) m = on_backend_connection_start double ops id m
  perform (ended id) m = on_backend_connection_end double ops id m
  perform (answered id ms) m = record_backend_response_time_ms double ops id ms m
  perform (failed_once id) m = report_backend_failure double ops id m
  perform (checked id healthy) m = on_health_result double ops id healthy m
  perform (ai_checked good id r) m = on_ai_result double ops good id r m
  perform (warmup_set enable model) m = configure_warmup enable model m
  perform (chosen key model version) m =
      (select_backend_for_model_version double ops key model version m).1

  unfoldable pub perform_all : List (Operation D) → BackendManager B D → BackendManager B D
  perform_all [] m = m
  perform_all (o ∷ os) m = perform_all os (perform o m)

module _ {B : Type 0} {D : Type 0} (double : Double D) (ops : Balancer B D)
    (knows : B → List ℕ → Bool) (laws : IsBalancer B D ops knows) where
  perform-InSync :
      (o : Operation D) (m : BackendManager B D)
      → InSync double ops knows laws m
      → InSync double ops knows laws (perform double ops o m)
  unfolding perform
  perform-InSync (added id w) m s = add_backend-InSync double ops knows laws id w m s
  perform-InSync (set_online id on) m s = set_backend_online-InSync double ops knows laws id on m s
  perform-InSync (set_weight id w) m s =
      set_backend_base_weight-InSync double ops knows laws id w m s
  perform-InSync (reported id q u used total) m s =
      update_backend_metrics-InSync double ops knows laws id q u used total m s
  perform-InSync (set_model id model version loaded) m s =
      set_backend_loaded_model-InSync double ops knows laws id model version loaded m s
  perform-InSync (started id) m s = on_backend_connection_start-InSync double ops knows laws id m s
  perform-InSync (ended id) m s = on_backend_connection_end-InSync double ops knows laws id m s
  perform-InSync (answered id ms) m s =
      record_backend_response_time_ms-InSync double ops knows laws id ms m s
  perform-InSync (failed_once id) m s = report_backend_failure-InSync double ops knows laws id m s
  perform-InSync (checked id healthy) m s =
      on_health_result-InSync double ops knows laws id healthy m s
  perform-InSync (ai_checked good id r) m s =
      on_ai_result-InSync double ops knows laws good id r m s
  perform-InSync (warmup_set enable model) m s =
      unfold configure_warmup in same-InSync double ops knows laws m _ s refl (λ j. refl)
  perform-InSync (chosen key model version) m s =
      let k = select_backend_for_model_version-Kept double ops knows laws key model version m in
      same-InSync double ops knows laws m _ s k.0 k.1

  -- Through any sequence of operations other than removals the balancer, whichever it is, knows exactly
  -- the backends that are there and eligible: online, healthy and, where that is reported, ready.
  pub perform_all-InSync :
      (os : List (Operation D)) (m : BackendManager B D)
      → InSync double ops knows laws m
      → InSync double ops knows laws (perform_all double ops os m)
  unfolding perform_all
  perform_all-InSync [] m s = s
  perform_all-InSync (o ∷ os) m s =
      perform_all-InSync os (perform double ops o m) (perform-InSync o m s)
