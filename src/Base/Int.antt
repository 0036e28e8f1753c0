-- ===== src/Base/Int.antt =====
-- int and long long: integers over the native numbers.
use linux_highperf_proxy.Base.Tests.{◌==◌}
use Prim.Native.Nat.{ℕ}
use mathlib.Core.Bool.{Bool, false}

-- `negsuc n` is -(n + 1).
pub data ℤ : Type 0 where
  pos : ℕ → ℤ
  negsuc : ℕ → ℤ

-- Is it the given number, which is not negative?
abbrev pub equals : ℕ → ℤ → Bool
equals n (pos k) = k == n
equals n (negsuc k) = false
