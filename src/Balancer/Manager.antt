-- ===== src/Balancer/Manager.antt =====
-- include/proxy/balancer/BackendManager.h and src/balancer/BackendManager.cpp: the backends and what the
-- balancer is told about them. An address is the text that toIpPort() gives, which is also the key of
-- the backend, so BackendInfo's `addr` is the key and ToId() too. An operation under the lock is one
-- step; the answer of a health, readiness or warm-up check is an operation of its own.
pub mod Signals
pub mod Select
pub mod Sync
pub mod Steps
pub mod History
pub mod Turns
mod Tests
pub mod Choice
use linux_highperf_proxy.Base.{
  ℕ, zero, suc, ◌+◌, ◌-◌, List, [], ◌∷◌, ◌++◌, Option, none, some, Bool, true, false, not, ◌&&◌,
  ◌||◌, ltb, leb, ◌==◌, if◌then◌else◌, min, max, ◌≡◌, ◌≢◌,
}
use linux_highperf_proxy.Base.Bytes.{codes, bytes_eq}
use linux_highperf_proxy.Base.Int.{ℤ, pos, negsuc}
use linux_highperf_proxy.Base.Maps.{find, put, remove}
use linux_highperf_proxy.Http1.Response.{bytes_lt}

-- double, with the operations that are used; `lit n d` is the literal n / d. Both tests are
-- false on a NaN.
pub record Double (D : Type 0) : Type 0 where
  pub lit : ℕ → ℕ → D
  pub of_int : ℤ → D
  pub add : D → D → D
  pub sub : D → D → D
  pub mul : D → D → D
  pub div : D → D → D
  pub less : D → D → Bool
  pub at_most : D → D → Bool
  pub lround : D → ℤ

-- The virtual functions of Balancer, over the state of some implementation.
pub record Balancer (B : Type 0) (D : Type 0) : Type 0 where
  pub add_node : List ℕ → ℕ → B → B
  pub remove_node : List ℕ → B → B
  pub get_node : List ℕ → B → List ℕ × B
  pub on_connection_start : List ℕ → B → B
  pub on_connection_end : List ℕ → B → B
  pub record_response_time_ms : List ℕ → D → B → B
  pub record_queue_length : List ℕ → ℤ → B → B
  pub record_gpu_util : List ℕ → D → ℤ → ℤ → B → B

-- base_weight and weight are at least 1; queue_len counts if has_queue_len or if it mirrors the active
-- connections.
pub record BackendInfo (D : Type 0) : Type 0 where
  pub base_weight : ℕ
  pub weight : ℕ
  pub healthy : Bool
  pub online : Bool
  pub active_connections : ℕ
  pub ewma_response_ms : D
  pub failures : ℕ
  pub successes : ℕ
  pub has_queue_len : Bool
  pub queue_len : ℤ
  pub has_gpu : Bool
  pub gpu_util01 : D
  pub vram_used_mb : ℤ
  pub vram_total_mb : ℤ
  pub ai_ready_present : Bool
  pub ai_ready : Bool
  pub has_model_loaded : Bool
  pub model_loaded : Bool
  pub has_model_name : Bool
  pub model_name : List ℕ
  pub has_model_version : Bool
  pub model_version : List ℕ

-- warmupChecker_ is there exactly if warm-up is enabled with a model.
pub record BackendManager (B : Type 0) (D : Type 0) : Type 0 where
  pub balancer : B
  pub backends : List (List ℕ × BackendInfo D)
  pub auto_weight_adjust : Bool
  pub warmup_enabled : Bool
  pub warmup_model : List ℕ
  pub model_affinity : List (List ℕ × List ℕ)
  pub model_version_affinity : List (List ℕ × List ℕ)

-- AiServiceChecker::Result.
pub record AiResult (D : Type 0) : Type 0 where
  pub queue_len : Option ℤ
  pub gpu : Option (D × ℤ × ℤ)
  pub model_loaded : Option Bool
  pub model_name : Option (List ℕ)
  pub model_version : Option (List ℕ)

abbrev pub is_empty : List ℕ → Bool
is_empty [] = true
is_empty (c ∷ cs) = false

unfoldable pub at_least_one : ℤ → ℕ
at_least_one (pos n) = max 1 n
at_least_one (negsuc n) = 1

-- std::clamp between 1 and a bound that is at least 1.
unfoldable pub clamp_weight : ℕ → ℤ → ℕ
clamp_weight bound (negsuc n) = 1
clamp_weight bound (pos n) = if ltb n 1 then 1 else if ltb bound n then bound else n

unfoldable pub not_negative : ℤ → ℤ
not_negative (pos n) = pos n
not_negative (negsuc n) = pos 0

module _ {D : Type 0} where
  unfoldable pub is_eligible : BackendInfo D → Bool
  is_eligible b = b.online && (b.healthy && not (b.ai_ready_present && not b.ai_ready))

  -- No traffic until the warm-up succeeds.
  unfoldable pub gated : List ℕ → BackendInfo D → BackendInfo D
  gated model b = record b {
    ai_ready_present = true;
    ai_ready = false;
    has_model_loaded = true;
    model_loaded = false;
    has_model_name = true;
    model_name = model;
  }

module _ {B : Type 0} {D : Type 0} where
  unfoldable pub warms_up : BackendManager B D → Bool
  warms_up m = m.warmup_enabled && not (is_empty m.warmup_model)

  unfoldable pub configure_warmup : Bool → List ℕ → BackendManager B D → BackendManager B D
  configure_warmup enable model m = record m { warmup_enabled = enable; warmup_model = model }

module _ {B : Type 0} {D : Type 0} (double : Double D) (ops : Balancer B D) where
  -- The factors of queue, GPU and response time.
  unfoldable pub weight_factor : BackendInfo D → D
  weight_factor b =
      let one = double.lit 1 1 in
      let ten = double.lit 10 1 in
      let fifty = double.lit 50 1 in
      let zero_ = double.lit 0 1 in
      let fifth = double.lit 2 10 in
      let u =
        if double.less b.gpu_util01 zero_
        then zero_
        else if double.less one b.gpu_util01
        then one
        else b.gpu_util01 in
      let share = double.sub one (double.mul (double.lit 8 10) u) in
      let queued =
        if b.has_queue_len
        then double.mul one
            (double.div ten (double.add ten (double.of_int (not_negative b.queue_len))))
        else one in
      let loaded =
        if b.has_gpu
        then double.mul queued (if double.less fifth share then share else fifth)
        else queued in
      if double.less zero_ b.ewma_response_ms
      then double.mul loaded (double.div fifty (double.add fifty b.ewma_response_ms))
      else loaded

  unfoldable pub recompute_weight : Bool → BackendInfo D → BackendInfo D
  recompute_weight auto b =
      let most = max 1 b.base_weight in
      if auto
      then (record b {
        weight =
            clamp_weight most
              (double.lround (double.mul (double.of_int (pos most)) (weight_factor b)));
      })
      else (record b { weight = most })

  -- The new weight is stored, and told to the balancer if it differs and the backend is eligible.
  unfoldable pub reweigh : List ℕ → BackendInfo D → BackendManager B D → BackendManager B D
  reweigh id b m =
      let b' = recompute_weight m.auto_weight_adjust b in
      record m {
        backends = put id b' m.backends;
        balancer =
            if not (b'.weight == b.weight) && is_eligible b'
            then ops.add_node id b'.weight m.balancer
            else m.balancer;
      }

  -- The change of eligibility is told to the balancer.
  unfoldable pub tell : List ℕ → Bool → BackendInfo D → B → B
  tell id old b bal =
      if is_eligible b
      then if old then bal else ops.add_node id b.weight bal
      else if old
      then ops.remove_node id bal
      else bal

  -- The loop of RebuildBalancer.
  unfoldable pub sync_entries : List (List ℕ × BackendInfo D) → B → B
  sync_entries [] bal = bal
  sync_entries ((id, b) ∷ rest) bal =
      sync_entries rest
        (if is_eligible b then ops.add_node id b.weight bal else ops.remove_node id bal)

  -- A new entry in the order of the keys.
  unfoldable pub insert_entry :
      List ℕ → BackendInfo D → List (List ℕ × BackendInfo D) → List (List ℕ × BackendInfo D)
  insert_entry id b [] = (id, b) ∷ []
  insert_entry id b ((k, w) ∷ rest) =
      if bytes_lt id k then (id, b) ∷ (k, w) ∷ rest else (k, w) ∷ insert_entry id b rest

  -- backends_ is a std::map: its entries in the order of their keys.
  unfoldable pub entries : List (List ℕ × BackendInfo D) → List (List ℕ × BackendInfo D)
  entries [] = []
  entries ((id, b) ∷ rest) = insert_entry id b (entries rest)

  unfoldable pub rebuild_balancer : BackendManager B D → BackendManager B D
  rebuild_balancer m = record m { balancer = sync_entries (entries m.backends) m.balancer }

  unfoldable pub new_backend : ℤ → BackendInfo D
  new_backend weight = record {
    base_weight = at_least_one weight;
    weight = at_least_one weight;
    healthy = true;
    online = true;
    active_connections = 0;
    ewma_response_ms = double.lit 0 1;
    failures = 0;
    successes = 0;
    has_queue_len = false;
    queue_len = pos 0;
    has_gpu = false;
    gpu_util01 = double.lit 0 1;
    vram_used_mb = pos 0;
    vram_total_mb = pos 0;
    ai_ready_present = false;
    ai_ready = true;
    has_model_loaded = false;
    model_loaded = false;
    has_model_name = false;
    model_name = [];
    has_model_version = false;
    model_version = [];
  }

  -- Whether a warm-up is started for the backend, and the manager.
  unfoldable pub add_backend : List ℕ → ℤ → BackendManager B D → Bool × BackendManager B D
  add_backend id weight m =
      let info = new_backend weight in
      let info' = if warms_up m then gated m.warmup_model info else info in
      (warms_up m, rebuild_balancer (record m { backends = put id info' m.backends }))

  unfoldable pub remove_backend : List ℕ → BackendManager B D → BackendManager B D
  remove_backend id m = rebuild_balancer (record m { backends = remove id m.backends })

  unfoldable pub remove_backend_by_id : List ℕ → BackendManager B D → Bool × BackendManager B D
  remove_backend_by_id id m = elim (find id m.backends) [
    | none ↦ (false, m)
    | some b ↦ (true, remove_backend id m)
  ]

  -- The result, whether a warm-up is started, and the manager.
  unfoldable pub set_backend_online :
      List ℕ → Bool → BackendManager B D → Bool × Bool × BackendManager B D
  set_backend_online id online m = elim (find id m.backends) [
    | none ↦ (false, false, m)
    | some b ↦
        let warm = online && warms_up m in
        let b' = record b { online = online } in
        let b'' = if warm then gated m.warmup_model b' else b' in
        let same = (online && b.online) || (not online && not b.online) in
        if same then (true, false, m) else (
          true,
          warm,
          record m {
            backends = put id b'' m.backends;
            balancer =
                if is_eligible b''
                then if is_eligible b then m.balancer else ops.add_node id b''.weight m.balancer
                else ops.remove_node id m.balancer;
          },
        )
  ]

  unfoldable pub set_backend_base_weight :
      List ℕ → ℤ → BackendManager B D → Bool × BackendManager B D
  set_backend_base_weight id base m = elim (find id m.backends) [
    | none ↦ (false, m)
    | some b ↦ (true, reweigh id (record b { base_weight = at_least_one base }) m)
  ]

  unfoldable pub update_backend_metrics :
      List ℕ → ℤ → D → ℤ → ℤ → BackendManager B D → Bool × BackendManager B D
  update_backend_metrics id queue gpu used total m = elim (find id m.backends) [
    | none ↦ (false, m)
    | some b ↦
        let has_queue = elim queue as (λ _. Bool) [ pos n ↦ true | negsuc n ↦ false ] in
        let has_gpu = double.at_most (double.lit 0 1) gpu in
        let gpu' = if double.less (double.lit 1 1) gpu then double.lit 1 1 else gpu in
        let b1 = if has_queue then record b { has_queue_len = true; queue_len = queue } else b in
        let b2 =
          if has_gpu
          then (record b1 {
            has_gpu = true;
            gpu_util01 = gpu';
            vram_used_mb = used;
            vram_total_mb = total;
          })
          else b1 in
        let bal1 = if has_queue then ops.record_queue_length id queue m.balancer else m.balancer in
        let bal2 = if has_gpu then ops.record_gpu_util id gpu' used total bal1 else bal1 in
        (true, reweigh id b2 (record m { balancer = bal2 }))
  ]

  -- modelAffinity_ and modelVersionAffinity_ where a model was loaded or unloaded.
  unfoldable pub note_affinity :
      Bool → List ℕ → List ℕ → List (List ℕ × List ℕ) → List (List ℕ × List ℕ)
  note_affinity loaded key id affinity = elim (find key affinity) [
    | none ↦ if loaded then put key id affinity else affinity
    | some known ↦
        if loaded
        then if is_empty known then put key id affinity else affinity
        else if bytes_eq known id
        then remove key affinity
        else affinity
  ]

  -- "model@version", or "@version".
  unfoldable pub version_key : List ℕ → List ℕ → List ℕ
  version_key model version = model ++ (64 ∷ version)

  unfoldable pub set_backend_loaded_model :
      List ℕ → List ℕ → List ℕ → Bool → BackendManager B D → Bool × BackendManager B D
  set_backend_loaded_model id model version loaded m = elim (find id m.backends) [
    | none ↦ (false, m)
    | some b ↦
        let b1 = record b {
          ai_ready_present = true;
          ai_ready = loaded;
          has_model_loaded = true;
          model_loaded = loaded;
        } in
        let b2 =
          if is_empty model then b1 else record b1 { has_model_name = true; model_name = model } in
        let b3 =
          if is_empty version
          then b2
          else record b2 { has_model_version = true; model_version = version } in
        (
          true,
          record m {
            backends = put id b3 m.backends;
            balancer = tell id (is_eligible b) b3 m.balancer;
            model_affinity =
                if is_empty model
                then m.model_affinity
                else note_affinity loaded model id m.model_affinity;
            model_version_affinity =
                if is_empty version
                then m.model_version_affinity
                else note_affinity loaded (version_key model version) id m.model_version_affinity;
          },
        )
  ]
