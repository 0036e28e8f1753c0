-- ===== src/Memory/Buddy/Allocator.antt =====
-- src/common/BuddyAllocator.cpp: arenas, and Allocate and Deallocate over them. What the system gives
-- is an argument: `fresh`, the memory for a new arena (posix_memalign, else malloc; 0 for none), and
-- `fallback`, what malloc gives for the request itself.
use linux_highperf_proxy.Base.{
  ℕ, zero, suc, ◌+◌, ◌-◌, List, [], ◌∷◌, ◌++◌, Option, none, some, ◌>>=◌, Bool, false, not, ◌&&◌,
  ◌||◌, ltb, leb, ◌==◌, if◌then◌else◌, length, get_elem?, replicate,
}
use linux_highperf_proxy.Base.Bytes.{sub_size}
use linux_highperf_proxy.Memory.Buddy.{
  Arena, AllocationMeta, BuddyAllocator, next_power_of_two, round_up_pow2, max_order, size_to_order,
  holds, take_block, merge_up,
}

-- The constructor, with IsPowerOfTwo tested by the next power of two.
unfoldable pub power_of_two_from : ℕ → ℕ → Option ℕ
power_of_two_from least x = next_power_of_two (if ltb x least then least else x)

unfoldable pub new_allocator : ℕ → ℕ → ℕ → ℕ → Option BuddyAllocator
new_allocator min_block_bytes arena_size_bytes keep_arenas max_arenas =
    power_of_two_from 1024 min_block_bytes >>= λ m. power_of_two_from m arena_size_bytes >>= λ s.
    some (record {
      min_block_bytes = m;
      arena_size_bytes = s;
      keep_arenas = keep_arenas;
      max_arenas = if max_arenas == 0 then 1 else max_arenas;
      tick = 0;
      arenas = [];
      allocs = [];
      alloc_calls = 0;
      free_calls = 0;
      arena_creates = 0;
      arena_reclaims = 0;
      malloc_fallback_allocs = 0;
      malloc_fallback_frees = 0;
    })

-- AllocateFromArenaLocked on the arena: the offset of the block.
unfoldable pub allocate_from_arena : ℕ → ℕ → ℕ → ℕ → ℕ → Arena → Option (ℕ × Arena)
allocate_from_arena min_block top size_rounded want tick a =
    elim (take_block min_block (top + 1 - want) 0 want a.free_sets) [
      | none ↦ none
      | some (off, sets) ↦ some (
        off,
        record a {
          free_sets = sets;
          in_use_blocks = a.in_use_blocks + 1;
          in_use_bytes = a.in_use_bytes + size_rounded;
          last_touch = tick + 1;
        },
      )
    ]

-- FreeToArenaLocked.
unfoldable pub free_to_arena : ℕ → ℕ → ℕ → ℕ → ℕ → ℕ → Arena → Arena
free_to_arena min_block top off order size_rounded tick a = record a {
  free_sets = merge_up min_block (top - order) order off a.free_sets;
  in_use_blocks = a.in_use_blocks - 1;
  in_use_bytes =
      if leb size_rounded a.in_use_bytes then a.in_use_bytes - size_rounded else a.in_use_bytes;
  last_touch = tick + 1;
}

unfoldable pub new_arena : ℕ → ℕ → ℕ → ℕ → Arena
new_arena fresh bytes top tick = record {
  base = fresh;
  bytes = bytes;
  last_touch = tick + 1;
  in_use_bytes = 0;
  in_use_blocks = 0;
  free_sets = replicate top [] ++ ((0 ∷ []) ∷ []);
}

-- allocs_[p] = meta, find(p) and erase(p).
unfoldable pub put_alloc :
    ℕ → AllocationMeta → List (ℕ × AllocationMeta) → List (ℕ × AllocationMeta)
put_alloc p v [] = (p, v) ∷ []
put_alloc p v ((q, w) ∷ m) = if q == p then (p, v) ∷ m else (q, w) ∷ put_alloc p v m

unfoldable pub find_alloc : ℕ → List (ℕ × AllocationMeta) → Option AllocationMeta
find_alloc p [] = none
find_alloc p ((q, w) ∷ m) = if q == p then some w else find_alloc p m

unfoldable pub erase_alloc : ℕ → List (ℕ × AllocationMeta) → List (ℕ × AllocationMeta)
erase_alloc p [] = []
erase_alloc p ((q, w) ∷ m) = if q == p then m else (q, w) ∷ erase_alloc p m

-- The loop of Allocate over the arenas, from index `i` on: the index, the pointer and the arenas.
unfoldable pub try_arenas : ℕ → ℕ → ℕ → ℕ → ℕ → ℕ → List Arena → Option (ℕ × ℕ × List Arena)
try_arenas min_block top size_rounded want tick i [] = none
try_arenas min_block top size_rounded want tick i (a ∷ as_) =
    let rest =
      elim (try_arenas min_block top size_rounded want tick (i + 1) as_)
        as (λ _. Option (ℕ × ℕ × List Arena)) [
          | none ↦ none
          | some (j, p, as') ↦ some (j, p, a ∷ as')
        ] in
    if a.base == 0
    then rest
    else (elim (allocate_from_arena min_block top size_rounded want tick a) [
      | none ↦ rest
      | some (off, a') ↦ some (i, a.base + off, a' ∷ as_)
    ])

-- CreateArenaLocked.
unfoldable pub create_arena : ℕ → ℕ → BuddyAllocator → Option BuddyAllocator
create_arena fresh top b =
    if leb b.max_arenas (length b.arenas) || (fresh == 0)
    then none
    else some (record b {
      arenas = b.arenas ++ (new_arena fresh b.arena_size_bytes top b.tick ∷ []);
      tick = b.tick + 1;
      arena_creates = b.arena_creates + 1;
    })

-- A block from one of the arenas, with its entry in the map.
unfoldable pub allocate_from : ℕ → ℕ → ℕ → BuddyAllocator → Option (ℕ × BuddyAllocator)
allocate_from top size_rounded want b =
    elim (try_arenas b.min_block_bytes top size_rounded want b.tick 0 b.arenas) [
      | none ↦ none
      | some (i, p, as') ↦ some (
        p,
        record b {
          arenas = as';
          allocs =
              put_alloc p (record { arena_index = i; order = want; size_rounded = size_rounded })
                b.allocs;
          tick = b.tick + 1;
        },
      )
    ]

unfoldable pub fall_back : ℕ → BuddyAllocator → ℕ × BuddyAllocator
fall_back fallback b =
    (fallback, record b { malloc_fallback_allocs = b.malloc_fallback_allocs + 1 })

-- With the arenas there are, else with a new one, which is the last: those before it have no block.
unfoldable pub allocate_rounded : ℕ → ℕ → ℕ → ℕ → ℕ → BuddyAllocator → ℕ × BuddyAllocator
allocate_rounded fresh fallback top size_rounded want b =
    elim (allocate_from top size_rounded want b) [
      | some r ↦ r
      | none ↦ elim (create_arena fresh top b) [
        | none ↦ fall_back fallback b
        | some b' ↦ elim (allocate_from top size_rounded want b') [
          | some r ↦ r
          | none ↦ fall_back fallback b'
        ]
      ]
    ]

-- `none` where a loop over powers of two does not end.
unfoldable pub allocate : ℕ → ℕ → ℕ → BuddyAllocator → Option (ℕ × BuddyAllocator)
allocate fresh fallback size b =
    let b' = record b { alloc_calls = b.alloc_calls + 1 } in
    round_up_pow2 (if size == 0 then 1 else size) b.min_block_bytes >>= λ rounded.
    if ltb b.arena_size_bytes rounded
    then some (fall_back fallback b')
    else (size_to_order b rounded >>= λ want.
        max_order b >>= λ top. some (allocate_rounded fresh fallback top rounded want b'))

-- The whole arena is one free block.
unfoldable pub whole_free : List (List ℕ) → Bool
whole_free [] = false
whole_free (s ∷ []) = holds 0 s
whole_free (s ∷ t ∷ ss) = whole_free (t ∷ ss)

unfoldable pub is_idle : Arena → Bool
is_idle a = not (a.base == 0) && ((a.in_use_blocks == 0) && whole_free a.free_sets)

unfoldable pub count_idle : ℕ → List Arena → ℕ
count_idle top [] = 0
count_idle top (a ∷ as_) =
    (if is_idle a && (length a.free_sets == top + 1) then 1 else 0) + count_idle top as_

-- The idle arena that was touched first, with its index and its tick.
unfoldable pub oldest_idle : ℕ → List Arena → Option (ℕ × ℕ) → Option (ℕ × ℕ)
oldest_idle i [] best = best
oldest_idle i (a ∷ as_) best = oldest_idle (i + 1) as_ (
    if is_idle a
    then (elim best [
      | none ↦ some (i, a.last_touch)
      | some (j, t) ↦ if ltb a.last_touch t then some (i, a.last_touch) else some (j, t)
    ])
    else best)

unfoldable pub set_arena : ℕ → (Arena → Arena) → List Arena → List Arena
set_arena i f [] = []
set_arena zero f (a ∷ as_) = f a ∷ as_
set_arena (suc i) f (a ∷ as_) = a ∷ set_arena i f as_

-- The slot of a reclaimed arena stays in the list.
unfoldable pub reclaimed : ℕ → Arena → Arena
reclaimed tick a = record {
  base = 0;
  bytes = 0;
  last_touch = tick + 1;
  in_use_bytes = 0;
  in_use_blocks = 0;
  free_sets = [];
}

unfoldable pub reclaim_one_idle : BuddyAllocator → BuddyAllocator
reclaim_one_idle b = elim (oldest_idle 0 b.arenas none) [
  | none ↦ b
  | some (i, t) ↦ record b {
    arenas = set_arena i (reclaimed b.tick) b.arenas;
    tick = b.tick + 1;
    arena_reclaims = b.arena_reclaims + 1;
  }
]

unfoldable pub reclaim_many : ℕ → BuddyAllocator → BuddyAllocator
reclaim_many zero b = b
reclaim_many (suc n) b = reclaim_many n (reclaim_one_idle b)

unfoldable pub maybe_reclaim_idle : ℕ → BuddyAllocator → BuddyAllocator
maybe_reclaim_idle top b =
    let kept = if ltb b.max_arenas b.keep_arenas then b.max_arenas else b.keep_arenas in
    reclaim_many (count_idle top b.arenas - kept) (record b { keep_arenas = kept })

unfoldable pub free_elsewhere : BuddyAllocator → BuddyAllocator
free_elsewhere b = record b { malloc_fallback_frees = b.malloc_fallback_frees + 1 }

-- The block of an entry that was in the map.
unfoldable pub give_back : ℕ → ℕ → AllocationMeta → BuddyAllocator → BuddyAllocator
give_back top ptr meta b = elim (get_elem? b.arenas meta.arena_index) [
  | none ↦ free_elsewhere b
  | some a ↦
      if a.base == 0
      then free_elsewhere b
      else maybe_reclaim_idle top (record b {
        arenas =
            set_arena meta.arena_index
              (free_to_arena b.min_block_bytes top (sub_size ptr a.base) meta.order
                meta.size_rounded b.tick)
              b.arenas;
        tick = b.tick + 1;
      })
]

-- `none` where the loop of MaxOrder does not end.
unfoldable pub deallocate : ℕ → BuddyAllocator → Option BuddyAllocator
deallocate ptr b =
    let b' = record b { free_calls = b.free_calls + 1 } in
    if ptr == 0 then some b else (elim (find_alloc ptr b.allocs) [
      | none ↦ some (free_elsewhere b')
      | some meta ↦ max_order b >>= λ top.
          some (give_back top ptr meta (record b' { allocs = erase_alloc ptr b.allocs }))
    ])
