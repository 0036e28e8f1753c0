-- ===== src/Base/Bits.antt =====
-- `&` on machine words: what a mask of high bits keeps.
use Prim.Native.Nat.{
  ℕ, zero, suc, ◌+◌, ◌-◌, ◌*◌, ◌/◌, ◌%◌, ◌^◌, ◌≤◌, ◌<◌, min, bit_and, bit_xor, digits, bitwise,
  differ, bit_and-bitwise, bit_xor-bitwise,
}
use mathlib.Core.Path.{◌≡◌, refl, ap, ◌∙◌}
use native.Mathlib.Nat.{pow-suc, one-le-pow, div-div-eq-div-mul}
use native.Mathlib.Omega.{arith}

module _ (rest_of : ℕ → ℕ) (f : ℕ → ℕ → ℕ) where
  -- Fuel from the first number on gives one result.
  digits_enough : (a b n m : ℕ) → a ≤ n → a ≤ m → digits rest_of f n a b ≡ digits rest_of f m a b
  digits_enough zero b zero zero hn hm = refl
  digits_enough zero b zero (suc m) hn hm = refl
  digits_enough zero b (suc n) zero hn hm = refl
  digits_enough zero b (suc n) (suc m) hn hm = refl
  digits_enough (suc a) b n zero hn hm = absurd (omega arith)
  digits_enough (suc a) b zero (suc m) hn hm = absurd (omega arith)
  digits_enough (suc a) b (suc n) (suc m) hn hm =
      ap (λ rest. rest * 2 + f (suc a % 2) (b % 2))
        (digits_enough (suc a / 2) (b / 2) n m (omega arith) (omega arith))

  -- The lowest digit, and the others.
  bitwise-digit :
      (a b : ℕ)
      → bitwise rest_of f (suc a) b
        ≡ bitwise rest_of f (suc a / 2) (b / 2) * 2 + f (suc a % 2) (b % 2)
  bitwise-digit a b =
      let h : suc a / 2 ≤ a = omega arith in
      ap (λ rest. rest * 2 + f (suc a % 2) (b % 2))
        (digits_enough (suc a / 2) (b / 2) a (suc a / 2) h (omega arith))

bit_and-digit : (a b : ℕ) → bit_and a b ≡ bit_and (a / 2) (b / 2) * 2 + min (a % 2) (b % 2)
bit_and-digit zero b = simp bit_and-bitwise (omega arith)
bit_and-digit (suc a) b = simp bit_and-bitwise (bitwise-digit (λ _. zero) min a b)

bit_xor-digit : (a b : ℕ) → bit_xor a b ≡ bit_xor (a / 2) (b / 2) * 2 + differ (a % 2) (b % 2)
bit_xor-digit zero b = simp bit_xor-bitwise (omega arith)
bit_xor-digit (suc a) b = simp bit_xor-bitwise (bitwise-digit (λ n. n) differ a b)

-- A mask of `w` digits whose lowest `k` are zero clears those, in a number of `w` digits.
pub bit_and_high : (w k a : ℕ) → k ≤ w → a < 2 ^ w → bit_and a (2 ^ w - 2 ^ k) ≡ (a / 2 ^ k) * 2 ^ k
bit_and_high zero zero a h fits = ground (arith, bit_and-digit a 0)
bit_and_high zero (suc k) a h fits = absurd (omega arith)
bit_and_high (suc w) zero a h fits =
    let e : (2 ^ suc w - 2 ^ 0) / 2 ≡ 2 ^ w - 2 ^ 0 = omega (arith, pow-suc 2 w, one-le-pow w 2) in
    omega (
      arith,
      bit_and-digit a (2 ^ suc w - 2 ^ 0),
      ap (bit_and (a / 2)) e,
      bit_and_high w zero (a / 2) (omega arith) (omega (arith, fits, pow-suc 2 w)),
      pow-suc 2 w,
      one-le-pow w 2,
    )
bit_and_high (suc w) (suc k) a h fits =
    let e : (2 ^ suc w - 2 ^ suc k) / 2 ≡ 2 ^ w - 2 ^ k = omega (arith, pow-suc 2 w, pow-suc 2 k) in
    let q = a / 2 ^ suc k in
    let halves : a / 2 / 2 ^ k ≡ q =
      div-div-eq-div-mul a 2 (2 ^ k) ∙ ap (λ n. a / n) (omega (arith, pow-suc 2 k)) in
    omega (
      arith,
      bit_and-digit a (2 ^ suc w - 2 ^ suc k),
      ap (bit_and (a / 2)) e,
      bit_and_high w k (a / 2) (omega (arith, h)) (omega (arith, fits, pow-suc 2 w)),
      ap (λ n. n * 2 ^ k) halves,
      ap (λ n. q * n) (pow-suc 2 k),
      pow-suc 2 w,
      pow-suc 2 k,
    )

differ-zero : (d : ℕ) → differ d 0 ≡ d
differ-zero zero = refl
differ-zero (suc d) = refl

bit_xor-zero_below : (n a : ℕ) → a ≤ n → bit_xor a 0 ≡ a
bit_xor-zero_below n zero h = simp bit_xor-bitwise refl
bit_xor-zero_below zero (suc a) h = absurd (omega arith)
bit_xor-zero_below (suc n) (suc a) h = omega (
  arith,
  bit_xor-digit (suc a) 0,
  bit_xor-zero_below n (suc a / 2) (omega arith),
  differ-zero (suc a % 2),
)

-- Numbers given by their lowest digit and the others.
bit_xor-step :
    (a b d e : ℕ) → d < 2 → e < 2 → bit_xor (a * 2 + d) (b * 2 + e) ≡ bit_xor a b * 2 + differ d e
bit_xor-step a b d e hd he =
    let qa : (a * 2 + d) / 2 ≡ a = omega arith in
    let qb : (b * 2 + e) / 2 ≡ b = omega arith in
    let ra : (a * 2 + d) % 2 ≡ d = omega arith in
    let rb : (b * 2 + e) % 2 ≡ e = omega arith in
    bit_xor-digit (a * 2 + d) (b * 2 + e) ∙ rw qa (rw qb (rw ra (rw rb refl)))

bit_xor-double : (k a : ℕ) → bit_xor (a * 2 ^ suc k) (2 ^ suc k) ≡ bit_xor (a * 2 ^ k) (2 ^ k) * 2
bit_xor-double k a =
    let p = pow-suc 2 k in
    let e : a * 2 ^ suc k ≡ a * 2 ^ k * 2 + 0 = omega (arith, ap (λ t. a * t) p) in
    let e' : 2 ^ suc k ≡ 2 ^ k * 2 + 0 = omega (arith, p) in
    omega (
      arith,
      ap (λ n. bit_xor n (2 ^ suc k)) e,
      ap (bit_xor (a * 2 ^ k * 2 + 0)) e',
      bit_xor-step (a * 2 ^ k) (2 ^ k) 0 0 (omega arith) (omega arith),
    )

-- The neighbour of a block of 2 ^ k at an even place, and of one at an odd place: the other half of
-- the block of twice that size.
pub bit_xor_even : (k q : ℕ) → bit_xor ((q * 2) * 2 ^ k) (2 ^ k) ≡ (q * 2 + 1) * 2 ^ k
bit_xor_even zero q =
    let e : bit_xor ((q * 2) * 1) 1 ≡ bit_xor (q * 2 + 0) (0 * 2 + 1) =
      ap (λ n. bit_xor n 1) (omega arith) in
    omega (arith, e, bit_xor-step q 0 0 1 (omega arith) (omega arith), bit_xor-zero_below q q)
bit_xor_even (suc k) q =
    omega
      (arith, bit_xor-double k (q * 2), bit_xor_even k q, ap (λ t. (q * 2 + 1) * t) (pow-suc 2 k))

pub bit_xor_odd : (k q : ℕ) → bit_xor ((q * 2 + 1) * 2 ^ k) (2 ^ k) ≡ (q * 2) * 2 ^ k
bit_xor_odd zero q =
    let e : bit_xor ((q * 2 + 1) * 1) 1 ≡ bit_xor (q * 2 + 1) (0 * 2 + 1) =
      ap (λ n. bit_xor n 1) (omega arith) in
    omega (arith, e, bit_xor-step q 0 1 1 (omega arith) (omega arith), bit_xor-zero_below q q)
bit_xor_odd (suc k) q =
    omega
      (arith, bit_xor-double k (q * 2 + 1), bit_xor_odd k q, ap (λ t. (q * 2) * t) (pow-suc 2 k))
