-- ===== src/Base/Maps.antt =====
-- A std::map or std::unordered_map with string keys, as an association list. Where the order of an
-- unordered_map would show, the model that uses it says so.
use linux_highperf_proxy.Base.Tests.{if◌then◌else◌, Bool-cases}
use linux_highperf_proxy.Base.Lists.{length}
use linux_highperf_proxy.Base.Bytes.{bytes_eq, bytes_eq→eq}
use Prim.Native.Nat.{ℕ, suc, ◌≤◌}
use mathlib.Core.Path.{◌≡◌, refl, ap}
use mathlib.Core.Logic.{inl, inr}
use mathlib.Core.Bool.{true}
use mathlib.Core.Option.{Option, none, some}
use mathlib.Core.List.{List, [], ◌∷◌}
use native.Mathlib.Omega.{arith}

module _ {V : Type 0} where
  -- find(key)
  unfoldable pub find : List ℕ → List (List ℕ × V) → Option V
  find key [] = none
  find key ((k, v) ∷ m) = if bytes_eq k key then some v else find key m

  -- m[key] = v
  unfoldable pub put : List ℕ → V → List (List ℕ × V) → List (List ℕ × V)
  put key v [] = (key, v) ∷ []
  put key v ((k, w) ∷ m) = if bytes_eq k key then (key, v) ∷ m else (k, w) ∷ put key v m

  -- erase(key)
  unfoldable pub remove : List ℕ → List (List ℕ × V) → List (List ℕ × V)
  remove key [] = []
  remove key ((k, w) ∷ m) = if bytes_eq k key then remove key m else (k, w) ∷ remove key m

pub bytes_eq_trans : (a b c : List ℕ) → bytes_eq a b ≡ true → bytes_eq a c ≡ bytes_eq b c
bytes_eq_trans a b c h = ap (λ x. bytes_eq x c) (bytes_eq→eq a b h)

pub bytes_eq_comm : (a b : List ℕ) → bytes_eq a b ≡ bytes_eq b a
bytes_eq_comm [] [] = refl
bytes_eq_comm [] (y ∷ ys) = refl
bytes_eq_comm (x ∷ xs) [] = refl
bytes_eq_comm (x ∷ xs) (y ∷ ys) = ground (arith, bytes_eq_comm xs ys)

module _ {V : Type 0} where
  pub find-put :
      (key j : List ℕ) (v : V) (m : List (List ℕ × V))
      → find j (put key v m) ≡ (if bytes_eq key j then some v else find j m)
  unfolding find put
  find-put key j v [] = refl
  find-put key j v ((k, w) ∷ m) = elim (Bool-cases (bytes_eq k key)) [
    | inl e ↦ ground (arith, e, bytes_eq_trans k key j e)
    | inr e ↦ elim (Bool-cases (bytes_eq key j)) [
      | inl e' ↦ ground (
        arith,
        e,
        e',
        find-put key j v m,
        bytes_eq_trans key j k e',
        bytes_eq_comm key k,
        bytes_eq_comm j k,
      )
      | inr e' ↦ ground (arith, e, e', find-put key j v m)
    ]
  ]

  pub find-remove :
      (key j : List ℕ) (m : List (List ℕ × V))
      → find j (remove key m) ≡ (if bytes_eq key j then none else find j m)
  unfolding find remove
  find-remove key j [] = ground arith
  find-remove key j ((k, w) ∷ m) = elim (Bool-cases (bytes_eq k key)) [
    | inl e ↦ ground (arith, e, bytes_eq_trans k key j e, find-remove key j m)
    | inr e ↦ elim (Bool-cases (bytes_eq key j)) [
      | inl e' ↦ ground (
        arith,
        e,
        e',
        find-remove key j m,
        bytes_eq_trans key j k e',
        bytes_eq_comm key k,
        bytes_eq_comm j k,
      )
      | inr e' ↦ ground (arith, e, e', find-remove key j m)
    ]
  ]

  -- A new key makes a map longer by one, a known one leaves its length.
  pub length-put :
      (key : List ℕ) (v : V) (m : List (List ℕ × V)) → length (put key v m) ≤ suc (length m)
  unfolding put
  length-put key v [] = omega arith
  length-put key v ((k, w) ∷ m) = ground (arith, length-put key v m)

  pub length-put_known :
      (key : List ℕ) (v w : V) (m : List (List ℕ × V))
      → find key m ≡ some w
      → length (put key v m) ≡ length m
  unfolding put find
  length-put_known key v w [] e = cc
  length-put_known key v w ((k, u) ∷ m) e = ground (arith, length-put_known key v w m)

  pub length-remove : (key : List ℕ) (m : List (List ℕ × V)) → length (remove key m) ≤ length m
  unfolding remove
  length-remove key [] = omega arith
  length-remove key ((k, w) ∷ m) = ground (arith, length-remove key m)
