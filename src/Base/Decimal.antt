-- ===== src/Base/Decimal.antt =====
-- std::to_string of a number that is not negative.
use linux_highperf_proxy.Base.Order.{lt_wf}
use Prim.Native.Nat.{ℕ, ◌+◌, ◌/◌, ◌%◌, ◌<◌}
use mathlib.Core.List.{List, [], ◌∷◌, ◌++◌}
use mathlib.Core.Logic.{dite}
use mathlib.Core.WellFounded.{Acc}
use native.Mathlib.Decide.{dec_lt}
use native.Mathlib.Omega.{arith}

digits : (n : ℕ) → Acc ◌<◌ n → List ℕ
digits n (Acc.intro _ smaller) =
    dite (dec_lt n 10) (λ _. (n + b'0') ∷ [])
      (λ h. digits (n / 10) (smaller (n / 10) (omega arith)) ++ ((n % 10 + b'0') ∷ []))

unfoldable pub to_string : ℕ → List ℕ
unfolding digits lt_wf dec_lt
to_string n = digits n (lt_wf.apply n)
