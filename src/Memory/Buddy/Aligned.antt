-- ===== src/Memory/Buddy/Aligned.antt =====
-- BuddyAllocator: every block starts at a multiple of its size.
use linux_highperf_proxy.Base.{
  true, ℕ, zero, suc, ◌+◌, ◌*◌, ◌/◌, ◌^◌, ◌≤◌, ◌<◌, ◌≡◌, sym, ap, ◌∙◌, subst, List, [], ◌∷◌, some,
  Bool-cases, List-cases, inl, inr, ◌==◌, All, min, arith,
}
use linux_highperf_proxy.Memory.Buddy.{
  order_to_size, holds, set_insert, set_erase, begin_with, at_order, set_at, split_down, take_block,
  merge_up,
}
use linux_highperf_proxy.Memory.Buddy.Blocks.{size_at, size_at-double, order_to_size_lem}
use linux_highperf_proxy.Memory.Buddy.Merge.{buddy_lem}
use Prim.Native.Nat.{bit_xor}
use native.Mathlib.Nat.{one-le-pow}

-- A multiple of the size of its order.
abbrev pub IsAligned : ℕ → ℕ → ℕ → Type 0
IsAligned size o off = (q : ℕ) × (off ≡ q * size_at size o)

abbrev pub SetsAligned : ℕ → ℕ → List (List ℕ) → Type 0
SetsAligned size o [] = Unit {0}
SetsAligned size o (s ∷ ss) = All (IsAligned size o) s × SetsAligned size (suc o) ss

module _ (P : ℕ → Type 0) where
  All-set_insert : (off : ℕ) (s : List ℕ) → P off → All P s → All P (set_insert off s)
  unfolding set_insert
  All-set_insert off s h hs = elim (Bool-cases (holds off s)) [
    | inl e ↦ rw e hs
    | inr e ↦ rw e (h, hs)
  ]

  All-set_erase : (off : ℕ) (s : List ℕ) → All P s → All P (set_erase off s)
  unfolding set_erase
  All-set_erase off [] hs = hs
  All-set_erase off (y ∷ ys) hs = elim (Bool-cases (y == off)) [
    | inl e ↦ rw e hs.1
    | inr e ↦ rw e (hs.0, All-set_erase off ys hs.1)
  ]

  All-held : (x : ℕ) (s : List ℕ) → holds x s ≡ true → All P s → P x
  unfolding holds
  All-held x [] h hs = cc
  All-held x (y ∷ ys) h hs = elim (Bool-cases (y == x)) [
    | inl e ↦ let same : y ≡ x = ground (arith, e) in subst P same hs.0
    | inr e ↦ All-held x ys (ground (arith, e, h)) hs.1
  ]

  pub All-begin_with : (x : ℕ) (s : List ℕ) → holds x s ≡ true → All P s → All P (begin_with x s)
  unfolding begin_with
  All-begin_with x s h hs = (All-held x s h hs, All-set_erase x s hs)

module _ (size : ℕ) where
  -- A multiple of twice a size is one of the size.
  lower_order : (o off : ℕ) → IsAligned size (suc o) off → IsAligned size o off
  lower_order o off (q, e) = (q * 2, e ∙ omega (arith, ap (λ t. q * t) (size_at-double size o)))

  lower_orders : (d o off : ℕ) → IsAligned size (o + d) off → IsAligned size o off
  lower_orders zero o off h = subst (λ i. IsAligned size i off) (omega arith) h
  lower_orders (suc d) o off h =
      lower_orders d o off
        (lower_order (o + d) off (subst (λ i. IsAligned size i off) (omega arith) h))

  pub SetsAligned-at_order :
      (b i o : ℕ) (f : List ℕ → List ℕ) (sets : List (List ℕ))
      → o ≡ b + i
      → ((s : List ℕ) → All (IsAligned size o) s → All (IsAligned size o) (f s))
      → SetsAligned size b sets
      → SetsAligned size b (at_order i f sets)
  unfolding at_order
  SetsAligned-at_order b i o f [] e keep h = h
  SetsAligned-at_order b zero o f (s ∷ ss) e keep h =
      let e' : o ≡ b = omega arith in
      (
        subst (λ j. All (IsAligned size j) (f s)) e'
            (keep s (subst (λ j. All (IsAligned size j) s) (sym e') h.0)),
        h.1,
      )
  SetsAligned-at_order b (suc i) o f (s ∷ ss) e keep h =
      (h.0, SetsAligned-at_order (suc b) i o f ss (omega (arith, e)) keep h.1)

  pub set_at-IsAligned :
      (b i o : ℕ) (sets : List (List ℕ))
      → o ≡ b + i
      → SetsAligned size b sets
      → All (IsAligned size o) (set_at i sets)
  unfolding set_at
  set_at-IsAligned b i o [] e h = tt
  set_at-IsAligned b zero o (s ∷ ss) e h =
      subst (λ j. All (IsAligned size j) s) (omega (arith, e)) h.0
  set_at-IsAligned b (suc i) o (s ∷ ss) e h = set_at-IsAligned (suc b) i o ss (omega (arith, e)) h.1

module _ (k top : ℕ) (fits : (o : ℕ) → o ≤ top → size_at (2 ^ k) o < 2 ^ 64) where
  next-IsAligned :
      (o off : ℕ)
      → o ≤ top
      → IsAligned (2 ^ k) o off
      → IsAligned (2 ^ k) o (off + order_to_size (2 ^ k) o)
  next-IsAligned o off low (q, e) = (
    q + 1,
    omega (arith, e, order_to_size_lem (2 ^ k) top (one-le-pow k 2 (omega arith)) fits o low),
  )

  split_down-aligned :
      (d want off : ℕ) (sets : List (List ℕ))
      → want + d ≤ top
      → IsAligned (2 ^ k) (want + d) off
      → SetsAligned (2 ^ k) 0 sets
      → SetsAligned (2 ^ k) 0 (split_down (2 ^ k) d want off sets)
  unfolding split_down
  split_down-aligned zero want off sets low a h = h
  split_down-aligned (suc d) want off sets low a h =
      let o = want + d in
      let half = off + order_to_size (2 ^ k) o in
      let a' : IsAligned (2 ^ k) o off =
        lower_order (2 ^ k) o off (subst (λ i. IsAligned (2 ^ k) i off) (omega arith) a) in
      split_down-aligned d want off (at_order o (set_insert half) sets) (omega (arith, low)) a' (
        SetsAligned-at_order (2 ^ k) 0 o o (set_insert half) sets (omega arith)
          (λ s hs.
            All-set_insert (IsAligned (2 ^ k) o) half s
              (next-IsAligned o off (omega (arith, low)) a') hs)
          h)

  pub take_block-IsAligned :
      (rounds d want : ℕ) (sets : List (List ℕ)) {r : ℕ × List (List ℕ)}
      → want + d + rounds ≤ suc top
      → SetsAligned (2 ^ k) 0 sets
      → take_block (2 ^ k) rounds d want sets ≡ some r
      → IsAligned (2 ^ k) want r.0 × SetsAligned (2 ^ k) 0 r.1
  unfolding take_block
  take_block-IsAligned zero d want sets low h e = cc
  take_block-IsAligned (suc rounds) d want sets {r} low h e =
      let o = want + d in
      elim (List-cases (set_at o sets)) [
        | inl n ↦
            let e' : take_block (2 ^ k) rounds (d + 1) want sets ≡ some r = ground (arith, n, e) in
            take_block-IsAligned rounds (d + 1) want sets (omega (arith, low)) h e'
        | inr (off, rest, n) ↦
            let sets' = at_order o (λ _. rest) sets in
            let heads : All (IsAligned (2 ^ k) o) (off ∷ rest) =
              subst (All (IsAligned (2 ^ k) o)) n
                (set_at-IsAligned (2 ^ k) 0 o o sets (omega arith) h) in
            let left = split_down (2 ^ k) d want off sets' in
            let e' : (off, left) ≡ r = ground (arith, n, e) in
            subst (λ p. IsAligned (2 ^ k) want p.0 × SetsAligned (2 ^ k) 0 p.1) e'
              (
                lower_orders (2 ^ k) d want off heads.0,
                split_down-aligned d want off sets' (omega (arith, low)) heads.0 (
                    SetsAligned-at_order (2 ^ k) 0 o o (λ _. rest) sets (omega arith)
                      (λ s hs. heads.1) h),
              )
      ]

  pub merge_up-aligned :
      (rounds o off : ℕ) (sets : List (List ℕ))
      → o + rounds ≤ top
      → IsAligned (2 ^ k) o off
      → SetsAligned (2 ^ k) 0 sets
      → SetsAligned (2 ^ k) 0 (merge_up (2 ^ k) rounds o off sets)
  unfolding merge_up
  merge_up-aligned zero o off sets low a h =
      SetsAligned-at_order (2 ^ k) 0 o o (set_insert off) sets (omega arith)
        (λ s hs. All-set_insert (IsAligned (2 ^ k) o) off s a hs) h
  merge_up-aligned (suc rounds) o off sets low a h =
      let b = bit_xor off (order_to_size (2 ^ k) o) in
      elim (Bool-cases (holds b (set_at o sets))) [
        | inl e ↦
            let least = (buddy_lem k top fits o off a.0 (omega (arith, low)) a.1).0 in
            rw (e, merge_up)
              (merge_up-aligned rounds (o + 1) (min off b) (at_order o (set_erase b) sets)
                (omega (arith, low)) (a.0 / 2, least)
                (SetsAligned-at_order (2 ^ k) 0 o o (set_erase b) sets (omega arith)
                  (λ s hs. All-set_erase (IsAligned (2 ^ k) o) b s hs) h))
        | inr e ↦
            rw (e, merge_up)
              (SetsAligned-at_order (2 ^ k) 0 o o (set_insert off) sets (omega arith)
                (λ s hs. All-set_insert (IsAligned (2 ^ k) o) off s a hs) h)
      ]
