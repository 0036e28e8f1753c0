-- ===== src/Memory/Buddy/Lengths.antt =====
-- BuddyAllocator: no operation on the free blocks changes the number of orders.
use linux_highperf_proxy.Base.{
  ℕ, zero, suc, ◌+◌, ◌≡◌, refl, ◌∙◌, List, some, List-cases, inl, inr, length, min, arith,
}
use linux_highperf_proxy.Memory.Buddy.{
  order_to_size, set_insert, set_erase, at_order, set_at, split_down, take_block, merge_up,
}
use linux_highperf_proxy.Memory.Buddy.Blocks.{length-at_order}
use Prim.Native.Nat.{bit_xor}

module _ (size : ℕ) where
  length-split_down :
      (d want off : ℕ) (sets : List (List ℕ))
      → length (split_down size d want off sets) ≡ length sets
  unfolding split_down
  length-split_down zero want off sets = refl
  length-split_down (suc d) want off sets =
      let f = set_insert (off + order_to_size size (want + d)) in
      length-split_down d want off (at_order (want + d) f sets) ∙ length-at_order (want + d) f sets

  pub length-take_block :
      (rounds d want : ℕ) (sets : List (List ℕ)) {r : ℕ × List (List ℕ)}
      → take_block size rounds d want sets ≡ some r
      → length r.1 ≡ length sets
  unfolding take_block
  length-take_block zero d want sets e = cc
  length-take_block (suc rounds) d want sets {r} e =
      let o = want + d in
      elim (List-cases (set_at o sets)) [
        | inl n ↦ length-take_block rounds (d + 1) want sets {r = r} (ground (arith, n, e))
        | inr (off, rest, n) ↦ ground (
          arith,
          n,
          e,
          length-split_down d want off (at_order o (λ _. rest) sets),
          length-at_order o (λ _. rest) sets,
        )
      ]

  pub length-merge_up :
      (rounds o off : ℕ) (sets : List (List ℕ))
      → length (merge_up size rounds o off sets) ≡ length sets
  unfolding merge_up
  length-merge_up zero o off sets = length-at_order o (set_insert off) sets
  length-merge_up (suc rounds) o off sets =
      let b = bit_xor off (order_to_size size o) in
      ground (
        arith,
        length-at_order o (set_insert off) sets,
        length-merge_up rounds (o + 1) (min off b) (at_order o (set_erase b) sets),
        length-at_order o (set_erase b) sets,
      )
