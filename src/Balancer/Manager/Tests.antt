-- ===== src/Balancer/Manager/Tests.antt =====
-- The manager over the round-robin balancer, with whole numbers in place of doubles; the theorems at
-- inputs that meet their hypotheses.
use linux_highperf_proxy.Base.{
  ℕ, ◌+◌, ◌-◌, ◌*◌, ◌/◌, ◌≡◌, ◌≢◌, refl, List, [], ◌∷◌, none, some, true, false, ltb, leb, arith,
}
use linux_highperf_proxy.Base.Bytes.{codes, bytes_eq}
use linux_highperf_proxy.Base.Int.{pos, negsuc}
use linux_highperf_proxy.Base.Maps.{find}
use linux_highperf_proxy.Balancer.RoundRobin.{RoundRobin}
use linux_highperf_proxy.Balancer.Manager.{
  Double, BackendInfo, BackendManager, is_eligible, remove_backend, version_key,
}
use linux_highperf_proxy.Balancer.Manager.Select.{
  model_ready, model_fits, version_fits, may_serve_version, remembered,
  select_backend_for_model_version,
}
use linux_highperf_proxy.Balancer.Manager.Sync.{InSync, eligible_at}
use linux_highperf_proxy.Balancer.Manager.Steps.{remove_backend_stale}
use linux_highperf_proxy.Balancer.Manager.History.{
  added, failed_once, checked, perform_all, perform_all-InSync,
}
use linux_highperf_proxy.Balancer.Manager.Choice.{
  Passes, version_choice-serves, version_choice_found,
}
use linux_highperf_proxy.Balancer.Manager.Turns.{
  listed, round_robin, knows_turn, round_robin-IsBalancer,
}

abbrev whole : Double ℕ
whole = record {
  lit = λ n d. n;
  of_int = λ z. elim z [ pos n ↦ n | negsuc n ↦ 0 ];
  add = λ a b. a + b;
  sub = λ a b. a - b;
  mul = λ a b. a * b;
  div = λ a b. a / b;
  less = ltb;
  at_most = leb;
  lround = pos;
}

abbrev node : List ℕ
node = codes "10.0.0.1:80"

abbrev ready : BackendInfo ℕ
ready = record {
  base_weight = 2;
  weight = 2;
  healthy = true;
  online = true;
  active_connections = 0;
  ewma_response_ms = 0;
  failures = 0;
  successes = 0;
  has_queue_len = false;
  queue_len = pos 0;
  has_gpu = false;
  gpu_util01 = 0;
  vram_used_mb = pos 0;
  vram_total_mb = pos 0;
  ai_ready_present = false;
  ai_ready = true;
  has_model_loaded = true;
  model_loaded = true;
  has_model_name = true;
  model_name = codes "m";
  has_model_version = true;
  model_version = codes "v1";
}

abbrev one_backend : BackendManager RoundRobin ℕ
one_backend = record {
  balancer = record { nodes = node ∷ node ∷ []; index = 0 };
  backends = (node, ready) ∷ [];
  auto_weight_adjust = true;
  warmup_enabled = false;
  warmup_model = [];
  model_affinity = [];
  model_version_affinity = [];
}

one_backend-InSync : InSync whole (round_robin ℕ) knows_turn (round_robin-IsBalancer ℕ) one_backend
one_backend-InSync = record {
  unique = (unfold find in refl, tt);
  weights = (omega arith, tt);
  knows-eligible_at = λ j. unfold knows_turn listed eligible_at find is_eligible in ground arith;
}

node-found : find node one_backend.backends ≡ some ready
unfolding find
node-found = refl

ready-is_eligible : is_eligible ready ≡ true
unfolding is_eligible
ready-is_eligible = refl

perform_all-InSync_example : InSync whole (round_robin ℕ) knows_turn (round_robin-IsBalancer ℕ) (
    perform_all whole
      (round_robin ℕ)
      (failed_once node ∷ added (codes "10.0.0.2:80") (pos 1) ∷ checked node true ∷ [])
      one_backend)
perform_all-InSync_example =
    perform_all-InSync whole (round_robin ℕ) knows_turn (round_robin-IsBalancer ℕ)
      (failed_once node ∷ added (codes "10.0.0.2:80") (pos 1) ∷ checked node true ∷ []) one_backend
      one_backend-InSync

remove_backend_stale_example :
    let m' = remove_backend whole (round_robin ℕ) node one_backend in
    (find node m'.backends ≡ none)
    × (knows_turn m'.balancer node ≡ true)
    × ((j : List ℕ)
        → bytes_eq node j ≡ false
        → knows_turn m'.balancer j ≡ eligible_at j m'.backends)
remove_backend_stale_example =
    remove_backend_stale whole (round_robin ℕ) knows_turn (round_robin-IsBalancer ℕ) node ready
      one_backend one_backend-InSync node-found ready-is_eligible

-- A backend that is remembered for the version.
abbrev remembering : BackendManager RoundRobin ℕ
remembering = record one_backend { model_version_affinity = (codes "m@v1", node) ∷ [] }

ready_serves : may_serve_version (codes "m") (codes "v1") ready ≡ true
unfolding may_serve_version is_eligible model_ready model_fits version_fits
ready_serves = refl

version_chosen :
    (select_backend_for_model_version whole
      (round_robin ℕ)
      (codes "k")
      (codes "m")
      (codes "v1")
      remembering).0
    ≡ some node
unfolding select_backend_for_model_version remembered find version_key may_serve_version is_eligible
    model_ready model_fits version_fits
version_chosen = refl

version_choice-serves_example :
    Passes (may_serve_version (codes "m") (codes "v1")) node remembering.backends
version_choice-serves_example =
    version_choice-serves whole (round_robin ℕ) (codes "k") (codes "m") (codes "v1") remembering
      node one_backend-InSync.unique refl version_chosen

no_empty : find [] one_backend.backends ≡ none
unfolding find
no_empty = refl

version_choice_found_example :
    (select_backend_for_model_version whole
      (round_robin ℕ)
      (codes "k")
      (codes "m")
      (codes "v1")
      one_backend).0
    ≢ none
version_choice_found_example =
    version_choice_found whole (round_robin ℕ) (codes "k") (codes "m") (codes "v1") one_backend node
      one_backend-InSync.unique no_empty refl (ready, node-found, ready_serves)
