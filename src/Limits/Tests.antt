-- ===== src/Limits/Tests.antt =====
-- The limits at concrete inputs; the theorems at inputs that meet their hypotheses.
use linux_highperf_proxy.Base.{◌/◌, ◌≡◌, ◌≢◌, refl, [], ◌∷◌, none, some, Bool, true, false, arith}
use linux_highperf_proxy.Base.Bytes.{codes}
use linux_highperf_proxy.Base.Maps.{find}
use linux_highperf_proxy.Limits.Connections
use linux_highperf_proxy.Limits.Connections.{
  Limiter, active, known, release, Call, acquire, give_back, run, try_acquire-active,
  try_acquire_refuses, release-active, run-IsValid,
}
use linux_highperf_proxy.Limits.Congestion
use linux_highperf_proxy.Limits.Congestion.{
  Config, Congestion, new_congestion, Reachable, starts, goes_on, asks, ends, complete_times,
  Reachable-IsValid, window_grows,
}

-- One user with one connection of two.
abbrev one_user : Limiter
one_user = record { max_connections = 2; max_entries = 1; entries = (codes "u", 1) ∷ [] }

abbrev nobody : Limiter
nobody = record { max_connections = 2; max_entries = 1; entries = [] }

nobody-IsValid : Connections.IsValid nobody
unfolding find
nobody-IsValid = record { bounded = λ key. omega arith; few = λ h. omega arith }

run-IsValid_example :
    Connections.IsValid
      (run (acquire (codes "u") ∷ acquire (codes "v") ∷ give_back (codes "u") ∷ []) nobody)
run-IsValid_example =
    run-IsValid (acquire (codes "u") ∷ acquire (codes "v") ∷ give_back (codes "u") ∷ []) nobody
      (omega arith) nobody-IsValid

abbrev small_window : Config
small_window = record {
  cfg_enabled = true;
  initial_window = 2;
  cfg_min_window = 1;
  cfg_max_window = 8;
  cfg_additive_increase = 1;
}

-- A request that came in and was lost: half of the window is left.
abbrev after_loss : Congestion
after_loss = record {
  enabled = true;
  cwnd = 1;
  inflight = 0;
  min_window = 1;
  max_window = 8;
  additive_increase = 1;
  ack_counter = 0;
  acks = 0;
  losses = 1;
}

lost_one :
    Congestion.on_complete
      (λ n. n / 2)
      false
      (Congestion.try_acquire (new_congestion small_window)).1
    ≡ some after_loss
unfolding Congestion.on_complete Congestion.on_loss Congestion.try_acquire new_congestion
lost_one = refl

-- An increase that does not fit an int.
overflows :
    Congestion.on_complete (λ n. n / 2) true (record after_loss { additive_increase = 2147483647 })
    ≡ none
unfolding Congestion.on_complete Congestion.on_ack
overflows = refl

Reachable-IsValid_example :
    Congestion.IsValid after_loss
    × ((success : Bool) → Congestion.on_complete (λ n. n / 2) success after_loss ≢ none)
Reachable-IsValid_example =
    Reachable-IsValid (λ n. n / 2) small_window after_loss (omega arith)
      (goes_on (goes_on starts (asks _)) (ends false _ after_loss lost_one))
