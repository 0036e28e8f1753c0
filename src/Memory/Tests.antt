-- ===== src/Memory/Tests.antt =====
-- The buddy allocator at concrete sizes; the theorems at inputs that meet their hypotheses.
use linux_highperf_proxy.Base.{ℕ, ◌+◌, ◌^◌, ◌≤◌, ◌<◌, ◌≡◌, refl, [], ◌∷◌, some, none, arith}
use linux_highperf_proxy.Memory.Buddy.{
  Arena, BuddyAllocator, next_power, take_block, split_down, at_order, set_insert, holds, set_at,
  order_to_size,
}
use linux_highperf_proxy.Memory.Buddy.Allocator.{
  allocate_from_arena, new_arena, fall_back, allocate_rounded, allocate,
}
use linux_highperf_proxy.Memory.Buddy.Blocks.{sets_cover, size_at}
use linux_highperf_proxy.Memory.Buddy.Arenas.{
  Reachable, created, taken, live_cover, Reachable-covered_once,
}
use linux_highperf_proxy.Memory.Buddy.Sizes.{
  next_power_stuck, allocate_returns, reclaimed_exhausted,
}

-- Four blocks of 1024 bytes.
abbrev small_arena : Arena
small_arena = record {
  base = 4096;
  bytes = 4096;
  last_touch = 1;
  in_use_bytes = 0;
  in_use_blocks = 0;
  free_sets = [] ∷ [] ∷ (0 ∷ []) ∷ [];
}

abbrev split_arena : Arena
split_arena = record {
  base = 4096;
  bytes = 4096;
  last_touch = 2;
  in_use_bytes = 1024;
  in_use_blocks = 1;
  free_sets = (1024 ∷ []) ∷ (2048 ∷ []) ∷ [] ∷ [];
}

small_arena_new : new_arena 4096 4096 2 0 ≡ small_arena
unfolding new_arena
small_arena_new = refl

first_block : allocate_from_arena 1024 2 1024 0 1 small_arena ≡ some (0, split_arena)
unfolding allocate_from_arena take_block split_down at_order set_insert holds set_at order_to_size
first_block = refl

first_block-Reachable : Reachable 10 2 split_arena ((0, 0) ∷ [])
unfolding new_arena
first_block-Reachable =
    taken small_arena split_arena [] 1024 0 1 0 (omega arith) (created 4096 4096 0) first_block

Reachable-covered_once_example :
    (1500 < size_at (2 ^ 10) 2
      → sets_cover (2 ^ 10) split_arena.free_sets 1500 + live_cover (2 ^ 10) ((0, 0) ∷ []) 1500 ≡ 1)
    × (size_at (2 ^ 10) 2 ≤ 1500
        → sets_cover (2 ^ 10) split_arena.free_sets 1500 + live_cover (2 ^ 10) ((0, 0) ∷ []) 1500
          ≡ 0)
Reachable-covered_once_example =
    Reachable-covered_once 10 2 1500 (omega arith) first_block-Reachable

next_power_stuck_example : next_power 70 1 (2 ^ 63 + 1) ≡ none
next_power_stuck_example = next_power_stuck 70 (2 ^ 63 + 1) (omega arith)

-- Two arenas were allowed, created and reclaimed.
abbrev no_arena : Arena
no_arena = record {
  base = 0;
  bytes = 0;
  last_touch = 9;
  in_use_bytes = 0;
  in_use_blocks = 0;
  free_sets = [];
}

abbrev used_up : BuddyAllocator
used_up = record {
  min_block_bytes = 1024;
  arena_size_bytes = 4096;
  keep_arenas = 0;
  max_arenas = 2;
  tick = 9;
  arenas = no_arena ∷ no_arena ∷ [];
  allocs = [];
  alloc_calls = 2;
  free_calls = 2;
  arena_creates = 2;
  arena_reclaims = 2;
  malloc_fallback_allocs = 0;
  malloc_fallback_frees = 0;
}

reclaimed_exhausted_example : allocate_rounded 4096 77 2 1024 0 used_up ≡ fall_back 77 used_up
reclaimed_exhausted_example =
    reclaimed_exhausted 4096 77 2 1024 0 used_up (refl, (refl, tt)) (omega arith)

allocate_returns_example : (r : ℕ × BuddyAllocator) × (allocate 4096 77 3000 used_up ≡ some r)
allocate_returns_example =
    allocate_returns 10 2 4096 77 3000 used_up (omega arith, refl, refl) (omega arith)
