-- ===== src/Memory/Buddy.antt =====
-- include/proxy/common/BuddyAllocator.h and src/common/BuddyAllocator.cpp: large blocks from arenas
-- whose free blocks are split and merged. A pointer is its address, the null pointer 0. Which element
-- begin() of an unordered_set gives is unspecified: a set is a list with that element first, and
-- `begin_with` puts another one there.
pub mod Blocks
pub mod Merge
pub mod Allocator
pub mod Aligned
pub mod Lengths
pub mod Arenas
pub mod Sizes
use linux_highperf_proxy.Base.{
  ℕ, zero, suc, ◌+◌, ◌-◌, ◌*◌, ◌%◌, ◌^◌, List, [], ◌∷◌, ◌++◌, Option, none, some, ◌>>=◌, Bool, true,
  false, not, ◌&&◌, ◌||◌, ltb, leb, ◌==◌, if◌then◌else◌, length, get_elem?, replicate, min, max,
}
use Prim.Native.Nat.{bit_xor}

-- free_sets holds, for each order, the offsets of the free blocks.
pub record Arena : Type 0 where
  pub base : ℕ
  pub bytes : ℕ
  pub last_touch : ℕ
  pub in_use_bytes : ℕ
  pub in_use_blocks : ℕ
  pub free_sets : List (List ℕ)

pub record AllocationMeta : Type 0 where
  pub arena_index : ℕ
  pub order : ℕ
  pub size_rounded : ℕ

pub record BuddyAllocator : Type 0 where
  pub min_block_bytes : ℕ
  pub arena_size_bytes : ℕ
  pub keep_arenas : ℕ
  pub max_arenas : ℕ
  pub tick : ℕ
  pub arenas : List Arena
  pub allocs : List (ℕ × AllocationMeta)
  pub alloc_calls : ℕ
  pub free_calls : ℕ
  pub arena_creates : ℕ
  pub arena_reclaims : ℕ
  pub malloc_fallback_allocs : ℕ
  pub malloc_fallback_frees : ℕ

-- The loop of NextPowerOfTwo; `none` where the fuel ran out.
unfoldable pub next_power : ℕ → ℕ → ℕ → Option ℕ
next_power zero p x = none
next_power (suc fuel) p x =
    let more = next_power fuel (p * 2 % 2 ^ 64) x in if ltb p x then more else some p

-- From 1 on, 64 shifts of a size_t reach 0.
unfoldable pub next_power_of_two : ℕ → Option ℕ
next_power_of_two x = next_power 65 1 x

unfoldable pub round_up_pow2 : ℕ → ℕ → Option ℕ
round_up_pow2 x min_pow2 =
    next_power_of_two x >>= λ y. some (if ltb y min_pow2 then min_pow2 else y)

-- The loop of MaxOrder and SizeToOrder: the shifts that take `s` to the size; `none` where the fuel ran
-- out.
unfoldable pub order_loop : ℕ → ℕ → ℕ → ℕ → Option ℕ
order_loop zero s o size = none
order_loop (suc fuel) s o size =
    let more = order_loop fuel (s * 2 % 2 ^ 64) (o + 1) size in if ltb s size then more else some o

unfoldable pub max_order : BuddyAllocator → Option ℕ
max_order b = order_loop 65 b.min_block_bytes 0 b.arena_size_bytes

unfoldable pub size_to_order : BuddyAllocator → ℕ → Option ℕ
size_to_order b size = order_loop 65 b.min_block_bytes 0 size

unfoldable pub order_to_size : ℕ → ℕ → ℕ
order_to_size min_block order = min_block * 2 ^ order % 2 ^ 64

-- find, insert and erase of an unordered_set<size_t>.
unfoldable pub holds : ℕ → List ℕ → Bool
holds x [] = false
holds x (y ∷ ys) = (y == x) || holds x ys

unfoldable pub set_insert : ℕ → List ℕ → List ℕ
set_insert x s = if holds x s then s else x ∷ s

unfoldable pub set_erase : ℕ → List ℕ → List ℕ
set_erase x [] = []
set_erase x (y ∷ ys) = let rest = set_erase x ys in if y == x then ys else y ∷ rest

unfoldable pub begin_with : ℕ → List ℕ → List ℕ
begin_with x s = x ∷ set_erase x s

-- freeSets[o] is changed.
unfoldable pub at_order : ℕ → (List ℕ → List ℕ) → List (List ℕ) → List (List ℕ)
at_order o f [] = []
at_order zero f (s ∷ ss) = f s ∷ ss
at_order (suc o) f (s ∷ ss) = s ∷ at_order o f ss

unfoldable pub set_at : ℕ → List (List ℕ) → List ℕ
set_at o sets = elim (get_elem? sets o) [ none ↦ [] | some s ↦ s ]

module _ (min_block : ℕ) where
  -- Split down to the wanted order, which is `d` below the order that the block has.
  unfoldable pub split_down : ℕ → ℕ → ℕ → List (List ℕ) → List (List ℕ)
  split_down zero want off sets = sets
  split_down (suc d) want off sets =
      split_down d want off
        (at_order (want + d) (set_insert (off + order_to_size min_block (want + d))) sets)

  -- The loop of AllocateFromArenaLocked over the orders, `d` above the wanted one and on, for so many
  -- rounds: the offset taken and the free blocks left.
  unfoldable pub take_block : ℕ → ℕ → ℕ → List (List ℕ) → Option (ℕ × List (List ℕ))
  take_block zero d want sets = none
  take_block (suc rounds) d want sets = elim (set_at (want + d) sets) [
    | [] ↦ take_block rounds (d + 1) want sets
    | off ∷ rest ↦ some (off, split_down d want off (at_order (want + d) (λ _. rest) sets))
  ]

  -- The loop of FreeToArenaLocked: the block is merged with its buddy as long as that is free.
  unfoldable pub merge_up : ℕ → ℕ → ℕ → List (List ℕ) → List (List ℕ)
  merge_up zero o off sets = at_order o (set_insert off) sets
  merge_up (suc rounds) o off sets =
      let buddy = bit_xor off (order_to_size min_block o) in
      let merged = merge_up rounds (o + 1) (min off buddy) (at_order o (set_erase buddy) sets) in
      if holds buddy (set_at o sets) then merged else at_order o (set_insert off) sets
