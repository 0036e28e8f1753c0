-- ===== src/Memory/Buddy/Merge.antt =====
-- BuddyAllocator: merging a block with its buddy keeps the bytes that the free blocks cover.
use linux_highperf_proxy.Base.{
  ℕ, zero, suc, ◌+◌, ◌*◌, ◌%◌, ◌/◌, ◌^◌, ◌≤◌, ◌<◌, ◌≡◌, ◌⊎◌, sym, ap, ◌∙◌, List, Bool-cases, inl,
  inr, ◌==◌, length, min, arith,
}
use linux_highperf_proxy.Base.Bits.{bit_xor_even, bit_xor_odd}
use linux_highperf_proxy.Memory.Buddy.{
  order_to_size, holds, set_insert, set_erase, at_order, set_at, merge_up,
}
use linux_highperf_proxy.Memory.Buddy.Blocks.{
  covers, sets_cover, covers-halves, covers_self, size_at, size_at-double, size_at_pos,
  length-at_order, insert_cover, erase_cover, order_to_size_lem,
}
use Prim.Native.Nat.{bit_xor}
use native.Mathlib.Nat.{pow-suc, one-le-pow}

pub pow_add : (k o : ℕ) → 2 ^ (k + o) ≡ size_at (2 ^ k) o
unfolding size_at
pow_add k zero = omega (arith, ap (λ n. 2 ^ n) (add_zero k))
  where
    add_zero : (n : ℕ) → n + 0 ≡ n
    add_zero n = omega arith
pow_add k (suc o) =
    let e : k + suc o ≡ suc (k + o) = omega arith in
    omega
      (arith, ap (λ n. 2 ^ n) e, pow-suc 2 (k + o), pow_add k o, ap (λ t. 2 ^ k * t) (pow-suc 2 o))

-- The buddy of a block at a multiple of its size is the other half of the block of twice the size that
-- starts at the lower one of the two.
buddy_even : (j r : ℕ) → let s = 2 ^ j in bit_xor ((r * 2) * s) s ≡ (r * 2) * s + s
buddy_even j r = omega (arith, bit_xor_even j r)

buddy_odd : (j r : ℕ) → let s = 2 ^ j in bit_xor ((r * 2) * s + s) s ≡ (r * 2) * s
buddy_odd j r =
    let s = 2 ^ j in
    let e : (r * 2) * s + s ≡ (r * 2 + 1) * s = omega arith in
    ap (λ n. bit_xor n s) e ∙ bit_xor_odd j r

parity : (q : ℕ) → (q ≡ (q / 2) * 2) ⊎ (q ≡ (q / 2) * 2 + 1)
parity q = elim (Bool-cases (q % 2 == 0)) [
  | inl e ↦ inl (ground (arith, e))
  | inr e ↦ inr (ground (arith, e))
]

buddy_cover :
    (j q : ℕ)
    → let s = 2 ^ j in
      let off = q * s in
      let b = bit_xor off s in
      (min off b ≡ (q / 2) * (s * 2))
      × ((x : ℕ) → covers s off x + covers s b x ≡ covers (s * 2) (min off b) x)
buddy_cover j q =
    let s = 2 ^ j in
    let r = q / 2 in
    let low = (r * 2) * s in
    elim (parity q) [
      | inl e ↦
          let at_ : q * s ≡ low = ap (λ n. n * s) e in
          let other : bit_xor (q * s) s ≡ low + s = ap (λ n. bit_xor n s) at_ ∙ buddy_even j r in
          let least : min (q * s) (bit_xor (q * s) s) ≡ low = omega (arith, at_, other) in
          (
            omega (arith, least),
            λ x. omega (
              arith,
              covers-halves s low x,
              ap (λ n. covers s n x) at_,
              ap (λ n. covers s n x) other,
              ap (λ n. covers (s * 2) n x) least,
            ),
          )
      | inr e ↦
          let at_ : q * s ≡ low + s = omega (arith, ap (λ n. n * s) e) in
          let other : bit_xor (q * s) s ≡ low = ap (λ n. bit_xor n s) at_ ∙ buddy_odd j r in
          let least : min (q * s) (bit_xor (q * s) s) ≡ low = omega (arith, at_, other) in
          (
            omega (arith, least),
            λ x. omega (
              arith,
              covers-halves s low x,
              ap (λ n. covers s n x) at_,
              ap (λ n. covers s n x) other,
              ap (λ n. covers (s * 2) n x) least,
            ),
          )
    ]

module _ (k top : ℕ) (fits : (o : ℕ) → o ≤ top → size_at (2 ^ k) o < 2 ^ 64) where
  alone :
      (o off : ℕ) (sets : List (List ℕ))
      → o < length sets
      → ((x : ℕ) → sets_cover (2 ^ k) sets x + covers (size_at (2 ^ k) o) off x ≤ 1)
      → (x : ℕ)
      → sets_cover (2 ^ k) (at_order o (set_insert off) sets) x
        ≡ sets_cover (2 ^ k) sets x + covers (size_at (2 ^ k) o) off x
  alone o off sets there apart x =
      let some_bytes = size_at_pos (2 ^ k) o (one-le-pow k 2 (omega arith)) in
      insert_cover (2 ^ k) o off sets x some_bytes there
        (omega (arith, apart off, covers_self (size_at (2 ^ k) o) off some_bytes))

  pub buddy_lem :
      (o off q : ℕ)
      → o ≤ top
      → off ≡ q * size_at (2 ^ k) o
      → let b = bit_xor off (order_to_size (2 ^ k) o) in
        (min off b ≡ (q / 2) * size_at (2 ^ k) (o + 1))
        × ((x : ℕ)
            → covers (size_at (2 ^ k) o) off x + covers (size_at (2 ^ k) o) b x
              ≡ covers (size_at (2 ^ k) (o + 1)) (min off b) x)
  buddy_lem o off q low aligned =
      let s = 2 ^ (k + o) in
      let size : size_at (2 ^ k) o ≡ s = sym (pow_add k o) in
      let twice : size_at (2 ^ k) (o + 1) ≡ s * 2 =
        ap (size_at (2 ^ k)) (omega arith) ∙ size_at-double (2 ^ k) o ∙ ap (λ n. n * 2) size in
      let asked : order_to_size (2 ^ k) o ≡ s =
        order_to_size_lem (2 ^ k) top (one-le-pow k 2 (omega arith)) fits o low ∙ size in
      let start : off ≡ q * s = aligned ∙ ap (λ n. q * n) size in
      rw asked (rw size (rw twice (rw start (buddy_cover (k + o) q))))

  -- The block that is given back is free afterwards, alone or as a part of a larger one, and no other
  -- byte becomes free or stops being free.
  pub merge_up_cover :
      (rounds o off q : ℕ) (sets : List (List ℕ))
      → o + rounds ≤ top
      → o + rounds < length sets
      → off ≡ q * size_at (2 ^ k) o
      → ((x : ℕ) → sets_cover (2 ^ k) sets x + covers (size_at (2 ^ k) o) off x ≤ 1)
      → (x : ℕ)
      → sets_cover (2 ^ k) (merge_up (2 ^ k) rounds o off sets) x
        ≡ sets_cover (2 ^ k) sets x + covers (size_at (2 ^ k) o) off x
  unfolding merge_up
  merge_up_cover zero o off q sets low there aligned apart x =
      alone o off sets (omega (arith, there)) apart x
  merge_up_cover (suc rounds) o off q sets low there aligned apart x =
      let s = order_to_size (2 ^ k) o in
      let b = bit_xor off s in
      elim (Bool-cases (holds b (set_at o sets))) [
        | inl e ↦
            let sets' = at_order o (set_erase b) sets in
            let (least, halves) = buddy_lem o off q (omega (arith, low)) aligned in
            let erased = λ (y : ℕ). erase_cover (2 ^ k) o b sets y (omega (arith, there)) e in
            rw (e, merge_up)
              (omega (
                arith,
                merge_up_cover rounds (o + 1) (min off b) (q / 2) sets' (omega (arith, low))
                    (omega (arith, there, length-at_order o (set_erase b) sets)) least
                    (λ y. omega (arith, erased y, halves y, apart y)) x,
                erased x,
                halves x,
              ))
        | inr e ↦ rw (e, merge_up) (alone o off sets (omega (arith, there)) apart x)
      ]
