-- ===== src/Limits/Congestion.antt =====
-- src/monitor/CongestionControl.cpp: a window of requests in flight, with additive increase and
-- multiplicative decrease. The settings are int; a negative one acts as 0 in every test below. The
-- window is an int as well: a sum that does not fit is undefined, `none` here. `shrink` is
-- floor(cwnd * beta) in double, for the beta in force.
use linux_highperf_proxy.Base.{
  ℕ, zero, suc, ◌+◌, ◌-◌, ◌%◌, ◌^◌, ◌≤◌, ◌<◌, ◌≡◌, ◌≢◌, refl, ap, subst, ◌∙◌, Option, none, some,
  Bool, true, false, not, ltb, leb, if◌then◌else◌, min, max, arith, Bool-cases, inl, inr,
}

pub record Config : Type 0 where
  pub cfg_enabled : Bool
  pub initial_window : ℕ
  pub cfg_min_window : ℕ
  pub cfg_max_window : ℕ
  pub cfg_additive_increase : ℕ

pub record Congestion : Type 0 where
  pub enabled : Bool
  pub cwnd : ℕ
  pub inflight : ℕ
  pub min_window : ℕ
  pub max_window : ℕ
  pub additive_increase : ℕ
  pub ack_counter : ℕ
  pub acks : ℕ
  pub losses : ℕ

unfoldable pub new_congestion : Config → Congestion
new_congestion cfg =
    let lo = max 1 cfg.cfg_min_window in
    let hi = max lo cfg.cfg_max_window in
    let start = if ltb cfg.initial_window lo then lo else cfg.initial_window in
    record {
      enabled = cfg.cfg_enabled;
      cwnd = if ltb hi start then hi else start;
      inflight = 0;
      min_window = lo;
      max_window = hi;
      additive_increase = max 1 cfg.cfg_additive_increase;
      ack_counter = 0;
      acks = 0;
      losses = 0;
    }

unfoldable pub try_acquire : Congestion → Bool × Congestion
try_acquire c =
    if not c.enabled
    then (true, c)
    else if leb c.cwnd c.inflight
    then (false, c)
    else (true, record c { inflight = c.inflight + 1 })

-- OnAckLocked: by additiveIncrease for every cwnd acks, up to the maximum. The sum is taken before it
-- is compared with the maximum.
unfoldable pub on_ack : Congestion → Option Congestion
on_ack c =
    let counted = record c {
      acks = (c.acks + 1) % 2 ^ 64;
      ack_counter = (c.ack_counter + 1) % 2 ^ 64;
    } in
    let grown = c.cwnd + c.additive_increase in
    if leb (max 1 c.cwnd) counted.ack_counter
    then if ltb grown (2 ^ 31)
      then some (record counted {
        ack_counter = 0;
        cwnd = if ltb c.max_window grown then c.max_window else grown;
      })
      else none
    else some counted

module _ (shrink : ℕ → ℕ) where
  unfoldable pub on_loss : Congestion → Congestion
  on_loss c = record c {
    losses = (c.losses + 1) % 2 ^ 64;
    ack_counter = 0;
    cwnd = max c.min_window (min c.max_window (shrink c.cwnd));
  }

  unfoldable pub on_complete : Bool → Congestion → Option Congestion
  on_complete success c =
      let done = record c { inflight = c.inflight - 1 } in
      if not c.enabled then some c else if success then on_ack done else some (on_loss done)

  unfoldable pub on_drop : Congestion → Congestion
  on_drop c = if c.enabled then on_loss c else c

-- The window is within its bounds, the requests in flight within the largest window, and fewer acks
-- are counted than the window has. The largest window is an int.
pub record IsValid (c : Congestion) : Type 0 where
  pub positive : 1 ≤ c.min_window
  pub lower : c.min_window ≤ c.cwnd
  pub upper : c.cwnd ≤ c.max_window
  pub bounded : c.inflight ≤ c.max_window
  pub counting : c.ack_counter < c.cwnd
  pub word : c.max_window < 2 ^ 31

-- The largest window of a configuration, and its increase.
abbrev largest : Config → ℕ
largest cfg = max (max 1 cfg.cfg_min_window) cfg.cfg_max_window

abbrev increase : Config → ℕ
increase cfg = max 1 cfg.cfg_additive_increase

new_congestion-IsValid : (cfg : Config) → largest cfg < 2 ^ 31 → IsValid (new_congestion cfg)
unfolding new_congestion
new_congestion-IsValid cfg int_ = record {
  positive = omega arith;
  lower = ground arith;
  upper = ground arith;
  bounded = omega arith;
  counting = ground arith;
  word = int_;
}

-- What happens to a window: a request that asks for a slot, one that ends, one that is dropped.
pub data Step (shrink : ℕ → ℕ) : Congestion → Congestion → Type 0 where
  asks : (c : Congestion) → Step shrink c (try_acquire c).1
  ends :
      (success : Bool) (c d : Congestion) → on_complete shrink success c ≡ some d → Step shrink c d
  drops : (c : Congestion) → Step shrink c (on_drop shrink c)

-- The states that a window can come to.
pub data Reachable (shrink : ℕ → ℕ) (cfg : Config) : Congestion → Type 0 where
  starts : Reachable shrink cfg (new_congestion cfg)
  goes_on : {c d : Congestion} → Reachable shrink cfg c → Step shrink c d → Reachable shrink cfg d

try_acquire-IsValid : (c : Congestion) → IsValid c → IsValid (try_acquire c).1
unfolding try_acquire
try_acquire-IsValid c v = record {
  positive = ground (arith, v.positive);
  lower = ground (arith, v.lower);
  upper = ground (arith, v.upper);
  bounded = ground (arith, v.bounded, v.upper);
  counting = ground (arith, v.counting);
  word = ground (arith, v.word);
}

-- The window that an operation leaves has the settings of the one before.
record Kept (c d : Congestion) : Type 0 where
  most : d.max_window ≡ c.max_window
  step : d.additive_increase ≡ c.additive_increase

-- OnAckLocked where the sum fits.
acked : Congestion → Congestion
acked c =
    let counted = record c {
      acks = (c.acks + 1) % 2 ^ 64;
      ack_counter = (c.ack_counter + 1) % 2 ^ 64;
    } in
    let grown = c.cwnd + c.additive_increase in
    if leb (max 1 c.cwnd) counted.ack_counter
    then record counted {
      ack_counter = 0;
      cwnd = if ltb c.max_window grown then c.max_window else grown;
    }
    else counted

on_ack-acked : (c d : Congestion) → on_ack c ≡ some d → acked c ≡ d
unfolding on_ack acked
on_ack-acked c d e = ground (arith, e)

on_ack_fits : (c : Congestion) → c.cwnd + c.additive_increase < 2 ^ 31 → on_ack c ≡ some (acked c)
unfolding on_ack acked
on_ack_fits c less = ground (arith, less)

acked-IsValid : (c : Congestion) → IsValid c → IsValid (acked c) × Kept c (acked c)
unfolding acked
acked-IsValid c v = (
  record {
    positive = ground (arith, v.positive);
    lower = ground (arith, v.lower, v.upper);
    upper = ground (arith, v.upper);
    bounded = ground (arith, v.bounded);
    counting = ground (arith, v.counting, v.lower, v.positive, v.upper);
    word = ground (arith, v.word);
  },
  record { most = ground arith; step = ground arith },
)

ended : Congestion → Congestion
ended c = record c { inflight = c.inflight - 1 }

ended-IsValid : (c : Congestion) → IsValid c → IsValid (ended c)
unfolding ended
ended-IsValid c v = record {
  positive = v.positive;
  lower = v.lower;
  upper = v.upper;
  bounded = omega (arith, v.bounded);
  counting = v.counting;
  word = v.word;
}

module _ (shrink : ℕ → ℕ) where
  on_loss-IsValid : (c : Congestion) → IsValid c → IsValid (on_loss shrink c)
  unfolding on_loss
  on_loss-IsValid c v = record {
    positive = v.positive;
    lower = omega arith;
    upper = omega (arith, v.lower, v.upper);
    bounded = v.bounded;
    counting = omega (arith, v.positive);
    word = v.word;
  }

  on_complete-IsValid :
      (success : Bool) (c d : Congestion)
      → IsValid c
      → on_complete shrink success c ≡ some d
      → IsValid d × Kept c d
  unfolding on_complete on_loss ended
  on_complete-IsValid true c d v e = elim (Bool-cases c.enabled) [
    | inl on ↦
        subst (λ x. IsValid x × Kept c x) (on_ack-acked (ended c) d (ground (arith, on, e)))
          (let (v', k) = acked-IsValid (ended c) (ended-IsValid c v) in
            (v', record { most = k.most; step = k.step }))
    | inr off ↦
        subst (λ x. IsValid x × Kept c x) (ground (arith, off, e))
          (v, record { most = refl; step = refl })
  ]
  on_complete-IsValid false c d v e = elim (Bool-cases c.enabled) [
    | inl on ↦
        let is_d : on_loss shrink (ended c) ≡ d = ground (arith, on, e) in
        subst (λ x. IsValid x × Kept c x) is_d
          (on_loss-IsValid (ended c) (ended-IsValid c v), record { most = refl; step = refl })
    | inr off ↦
        subst (λ x. IsValid x × Kept c x) (ground (arith, off, e))
          (v, record { most = refl; step = refl })
  ]

  on_complete_defined :
      (success : Bool) (c : Congestion)
      → IsValid c
      → c.max_window + c.additive_increase < 2 ^ 31
      → on_complete shrink success c ≢ none
  unfolding on_complete ended
  on_complete_defined success c v fits =
      let acked_ = on_ack_fits (ended c) (omega (arith, fits, v.upper)) in ground (arith, acked_)

  on_drop-IsValid :
      (c : Congestion) → IsValid c → IsValid (on_drop shrink c) × Kept c (on_drop shrink c)
  unfolding on_drop on_loss
  on_drop-IsValid c v =
      (ground (arith, v, on_loss-IsValid c v), record { most = ground arith; step = ground arith })

  Step-IsValid : (c d : Congestion) → IsValid c → Step shrink c d → IsValid d × Kept c d
  unfolding try_acquire
  Step-IsValid _ _ v (asks c) =
      (try_acquire-IsValid c v, record { most = ground arith; step = ground arith })
  Step-IsValid _ _ v (ends success c d e) = on_complete-IsValid success c d v e
  Step-IsValid _ _ v (drops c) = on_drop-IsValid c v

  -- Whatever the increase: a state that is reached without an overflow is valid.
  reached :
      (cfg : Config) (c : Congestion)
      → largest cfg < 2 ^ 31
      → Reachable shrink cfg c
      → IsValid c × (c.max_window ≡ largest cfg) × (c.additive_increase ≡ increase cfg)
  unfolding new_congestion
  reached cfg _ int_ starts = (new_congestion-IsValid cfg int_, refl, refl)
  reached cfg _ int_ (goes_on {c} {d} r s) =
      let (v, most, step) = reached cfg c int_ r in
      let (v', k) = Step-IsValid c d v s in (v', k.most ∙ most, k.step ∙ step)

-- For a configuration whose largest window and increase sum up to an int: in every state that a window
-- can come to, however requests ask, end and are dropped, the window lies between its bounds, no more
-- requests are in flight than the largest window allows, fewer acks are counted than the window has,
-- and the next request that ends overflows no int. This holds for every factor of decrease.
pub Reachable-IsValid :
    (shrink : ℕ → ℕ) (cfg : Config) (c : Congestion)
    → largest cfg + increase cfg < 2 ^ 31
    → Reachable shrink cfg c
    → IsValid c × ((success : Bool) → on_complete shrink success c ≢ none)
Reachable-IsValid shrink cfg c fits r =
    let (v, most, step) = reached shrink cfg c (omega (arith, fits)) r in
    (v, λ success. on_complete_defined shrink success c v (omega (arith, fits, most, step)))

-- Several requests that end well, one after the other.
abbrev pub complete_times : (ℕ → ℕ) → ℕ → Congestion → Option Congestion
complete_times shrink zero c = some c
complete_times shrink (suc n) c = elim (on_complete shrink true c) [
  | none ↦ none
  | some d ↦ complete_times shrink n d
]

abbrev window_of : Option Congestion → Option ℕ
window_of none = none
window_of (some c) = some c.cwnd

-- Additive increase: when as many requests have ended well as the window has slots, counted from the
-- last change of the window, it grows by the increase, up to its maximum, and not before; if the sum
-- is an int.
pub window_grows :
    (shrink : ℕ → ℕ) (n : ℕ) (c : Congestion)
    → IsValid c
    → c.cwnd + c.additive_increase < 2 ^ 31
    → c.enabled ≡ true
    → n + c.ack_counter ≤ c.cwnd
    → window_of (complete_times shrink n c)
      ≡ some (
          if leb c.cwnd (n + c.ack_counter)
          then min c.max_window (c.cwnd + c.additive_increase)
          else c.cwnd)
unfolding on_complete on_ack
window_grows shrink zero c v fits on le = ground (arith, v.counting)
window_grows shrink (suc zero) c v fits on le =
    ground (arith, on, fits, v.counting, v.positive, v.lower)
window_grows shrink (suc (suc n)) c v fits on le =
    let d : Congestion = record c {
      inflight = c.inflight - 1;
      acks = (c.acks + 1) % 2 ^ 64;
      ack_counter = (c.ack_counter + 1) % 2 ^ 64;
    } in
    let counted : (c.ack_counter + 1) % 2 ^ 64 ≡ c.ack_counter + 1 =
      omega (arith, le, v.upper, v.word) in
    let step : on_complete shrink true c ≡ some d = ground (arith, on, le, counted, v.lower) in
    let v' : IsValid d = record {
      positive = v.positive;
      lower = v.lower;
      upper = v.upper;
      bounded = omega (arith, v.bounded);
      counting = omega (arith, le, counted);
      word = v.word;
    } in
    ap
      (λ r. window_of (elim r as (λ _. Option Congestion) [
        | none ↦ none
        | some x ↦ complete_times shrink (suc n) x
      ]))
      step
    ∙ ground (arith, counted, window_grows shrink (suc n) d v' fits on (omega (arith, le, counted)))
