-- ===== src/Memory/Buddy/Sizes.antt =====
-- BuddyAllocator: the loops over powers of two, and when a request is left to malloc.
use linux_highperf_proxy.Base.{
  ℕ, zero, suc, ◌+◌, ◌-◌, ◌*◌, ◌%◌, ◌^◌, ◌≤◌, ◌<◌, ◌≡◌, refl, ap, ◌∙◌, List, [], ◌∷◌, none, some,
  Bool-cases, true, inl, inr, ltb, ◌==◌, if◌then◌else◌, length, All, arith,
}
use linux_highperf_proxy.Memory.Buddy.{
  Arena, BuddyAllocator, next_power, next_power_of_two, round_up_pow2, order_loop, max_order,
  size_to_order,
}
use linux_highperf_proxy.Memory.Buddy.Allocator.{
  try_arenas, create_arena, allocate_from, fall_back, allocate_rounded, allocate,
}
use native.Mathlib.Nat.{pow-suc, pow-le-pow_right}

-- A shift of a power of two below the highest bit of a size_t.
shift_pow : (j : ℕ) → j < 63 → 2 ^ j * 2 % 2 ^ 64 ≡ 2 ^ suc j
shift_pow j h =
    let small : 2 ^ suc j ≤ 2 ^ 63 =
      pow-le-pow_right {n = 2} (omega arith) {i = suc j} {j = 63} (omega arith) in
    omega (arith, small, pow-suc 2 j)

next_power-some :
    (fuel j x : ℕ)
    → x ≤ 2 ^ 63
    → j ≤ 63
    → 63 < fuel + j
    → (i : ℕ) × (next_power fuel (2 ^ j) x ≡ some (2 ^ i)) × (x ≤ 2 ^ i) × (j ≤ i)
unfolding next_power
next_power-some zero j x small low enough = absurd (omega arith)
next_power-some (suc fuel) j x small low enough = elim (Bool-cases (ltb (2 ^ j) x)) [
  | inr e ↦ (j, rw e refl, ground (arith, e), omega arith)
  | inl e ↦ elim (Bool-cases (j == 63)) [
    | inl top ↦
        let full : 2 ^ j ≡ 2 ^ 63 = let j63 : j ≡ 63 = ground (arith, top) in ap (λ n. 2 ^ n) j63 in
        absurd (ground (arith, e, full, small))
    | inr below ↦
        let s = shift_pow j (ground (arith, below, low)) in
        let (i, found, big, up) =
          next_power-some fuel (suc j) x small (ground (arith, below, low))
            (omega (arith, enough)) in
        (i, rw e (rw s found), big, omega (arith, up))
  ]
]

next_power_zero : (fuel x : ℕ) → 0 < x → next_power fuel 0 x ≡ none
unfolding next_power
next_power_zero zero x h = refl
next_power_zero (suc fuel) x h = ground (arith, next_power_zero fuel x h)

next_power-none : (fuel j x : ℕ) → j ≤ 63 → 2 ^ 63 < x → next_power fuel (2 ^ j) x ≡ none
unfolding next_power
next_power-none zero j x low big = refl
next_power-none (suc fuel) j x low big =
    let small : 2 ^ j ≤ 2 ^ 63 = pow-le-pow_right {n = 2} (omega arith) {i = j} {j = 63} low in
    let e : ltb (2 ^ j) x ≡ true = ground (arith, small, big) in
    elim (Bool-cases (j == 63)) [
      | inl top ↦
          let full : 2 ^ j ≡ 2 ^ 63 =
            let j63 : j ≡ 63 = ground (arith, top) in ap (λ n. 2 ^ n) j63 in
          let wraps : 2 ^ j * 2 % 2 ^ 64 ≡ 0 = omega (arith, full) in
          rw e (rw wraps (next_power_zero fuel x (omega (arith, big))))
      | inr below ↦ rw e (
          rw (shift_pow j (ground (arith, below, low)))
            (next_power-none fuel (suc j) x (ground (arith, below, low)) big))
    ]

-- For a request of more than 2 ^ 63 bytes the shifts of NextPowerOfTwo reach 0 and stay there: the loop
-- does not end, whatever the fuel.
pub next_power_stuck : (fuel x : ℕ) → 2 ^ 63 < x → next_power fuel 1 x ≡ none
next_power_stuck fuel x big = next_power-none fuel 0 x (omega arith) big

order_loop-some :
    (fuel j o t size : ℕ)
    → j + t ≤ 63
    → t < fuel
    → size ≤ 2 ^ (j + t)
    → (w : ℕ) × (order_loop fuel (2 ^ j) o size ≡ some w) × (w ≤ o + t)
unfolding order_loop
order_loop-some zero j o t size low enough fits = absurd (omega arith)
order_loop-some (suc fuel) j o t size low enough fits = elim (Bool-cases (ltb (2 ^ j) size)) [
  | inr e ↦ (o, rw e refl, omega arith)
  | inl e ↦ elim (Bool-cases (t == 0)) [
    | inl z ↦
        let same : 2 ^ (j + t) ≡ 2 ^ j = ap (λ n. 2 ^ n) (ground (arith, z)) in
        absurd (ground (arith, e, same, fits))
    | inr more ↦
        let s = shift_pow j (ground (arith, more, low)) in
        let same : 2 ^ (suc j + (t - 1)) ≡ 2 ^ (j + t) = ap (λ n. 2 ^ n) (ground (arith, more)) in
        let (w, found, up) =
          order_loop-some fuel (suc j) (o + 1) (t - 1) size (ground (arith, more, low))
            (ground (arith, more, enough)) (omega (arith, same, fits)) in
        (w, rw e (rw s found), ground (arith, more, up))
  ]
]

-- A bound on the block sizes of an allocator: powers of two that a size_t holds.
abbrev pub HasSizes : ℕ → ℕ → BuddyAllocator → Type 0
HasSizes k top b =
    (k + top ≤ 63) × (b.min_block_bytes ≡ 2 ^ k) × (b.arena_size_bytes ≡ 2 ^ (k + top))

-- A request of at most 2 ^ 63 bytes is answered: the loops over powers of two end.
pub allocate_returns :
    (k top fresh fallback size : ℕ) (b : BuddyAllocator)
    → HasSizes k top b
    → size ≤ 2 ^ 63
    → (r : ℕ × BuddyAllocator) × (allocate fresh fallback size b ≡ some r)
unfolding allocate round_up_pow2 next_power_of_two max_order size_to_order
allocate_returns k top fresh fallback size b (low, block, arena) small =
    let asked = if size == 0 then 1 else size in
    let bound : asked ≤ 2 ^ 63 = ground (arith, small) in
    let (i, found, big, up) = next_power-some 65 0 asked bound (omega arith) (omega arith) in
    let rounded = if ltb (2 ^ i) b.min_block_bytes then b.min_block_bytes else 2 ^ i in
    let b' = record b { alloc_calls = b.alloc_calls + 1 } in
    elim (Bool-cases (ltb b.arena_size_bytes rounded)) [
      | inl e ↦ (fall_back fallback b', rw found (rw e refl))
      | inr e ↦
          let within : rounded ≤ 2 ^ (k + top) = ground (arith, e, arena) in
          let (want, order, w_top) =
            order_loop-some 65 k 0 top rounded low (omega (arith, low)) within in
          let (most, order', m_top) =
            order_loop-some 65 k 0 top (2 ^ (k + top)) low (omega (arith, low)) (omega arith) in
          let sized : order_loop 65 b.min_block_bytes 0 rounded ≡ some want =
            ap (λ n. order_loop 65 n 0 rounded) block ∙ order in
          let topped : order_loop 65 b.min_block_bytes 0 b.arena_size_bytes ≡ some most =
            ap (λ n. order_loop 65 n 0 b.arena_size_bytes) block
            ∙ ap (λ n. order_loop 65 (2 ^ k) 0 n) arena
            ∙ order' in
          (
            allocate_rounded fresh fallback most rounded want b',
            rw found (rw e (rw sized (rw topped refl))),
          )
    ]

abbrev IsReclaimed : Arena → Type 0
IsReclaimed a = a.base ≡ 0

try_arenas-none :
    (min_block top rounded want tick i : ℕ) (as_ : List Arena)
    → All IsReclaimed as_
    → try_arenas min_block top rounded want tick i as_ ≡ none
unfolding try_arenas
try_arenas-none min_block top rounded want tick i [] h = refl
try_arenas-none min_block top rounded want tick i (a ∷ as_) h =
    ground (arith, h.0, try_arenas-none min_block top rounded want tick (i + 1) as_ h.1)

-- Once as many arenas have been created as are allowed, and all have been reclaimed, their slots still
-- count: no arena is created any more, and every request goes to malloc, though no arena is left.
pub reclaimed_exhausted :
    (fresh fallback top rounded want : ℕ) (b : BuddyAllocator)
    → All IsReclaimed b.arenas
    → b.max_arenas ≤ length b.arenas
    → allocate_rounded fresh fallback top rounded want b ≡ fall_back fallback b
unfolding allocate_rounded allocate_from create_arena
reclaimed_exhausted fresh fallback top rounded want b gone full =
    ground (arith, full, try_arenas-none b.min_block_bytes top rounded want b.tick 0 b.arenas gone)
