-- ===== src/Memory/Buddy/Arenas.antt =====
-- BuddyAllocator: through any sequence of allocations and releases in an arena, its free blocks and
-- the blocks that are in use cover every byte once.
use linux_highperf_proxy.Base.{
  true, ℕ, zero, suc, ◌+◌, ◌-◌, ◌*◌, ◌^◌, ◌≤◌, ◌<◌, ◌≡◌, refl, ap, ◌∙◌, subst, List, [], ◌∷◌, ◌++◌,
  some, Option-cases, inl, inr, length, get_elem?, replicate, arith,
}
use linux_highperf_proxy.Memory.Buddy.{Arena, begin_with, holds, at_order, set_at, take_block}
use linux_highperf_proxy.Memory.Buddy.Allocator.{allocate_from_arena, free_to_arena, new_arena}
use linux_highperf_proxy.Memory.Buddy.Blocks.{
  covers, set_cover, sets_cover, size_at, size_at-suc, length-at_order, sets_cover-at_order,
  set_cover-begin_with, take_block_cover,
}
use linux_highperf_proxy.Memory.Buddy.Lengths.{length-take_block, length-merge_up}
use linux_highperf_proxy.Memory.Buddy.Merge.{pow_add, merge_up_cover}
use linux_highperf_proxy.Memory.Buddy.Aligned.{
  IsAligned, SetsAligned, SetsAligned-at_order, set_at-IsAligned, All-begin_with,
  take_block-IsAligned, merge_up-aligned,
}
use native.Mathlib.Nat.{one-le-pow, pow-le-pow_right}

-- The blocks in use, with their offset and order.
unfoldable pub live_cover : ℕ → List (ℕ × ℕ) → ℕ → ℕ
live_cover size [] x = 0
live_cover size ((off, o) ∷ live) x = covers (size_at size o) off x + live_cover size live x

unfoldable pub without : ℕ → List (ℕ × ℕ) → List (ℕ × ℕ)
without i [] = []
without zero (b ∷ live) = live
without (suc i) (b ∷ live) = b ∷ without i live

-- The arena in which begin() gives that element of the set of order `o`.
abbrev begins : ℕ → ℕ → Arena → Arena
begins first o a = record a {
  free_sets = at_order o (λ _. begin_with first (set_at o a.free_sets)) a.free_sets;
}

-- An arena of blocks of 2 ^ k bytes and up to order `top`, after some allocations and releases. Between
-- them any element of a set may become the one that begin() gives.
pub data Reachable (k : ℕ) (top : ℕ) : Arena → List (ℕ × ℕ) → Type 0 where
  created : (fresh bytes tick : ℕ) → Reachable k top (new_arena fresh bytes top tick) []
  taken :
      (a a' : Arena) (live : List (ℕ × ℕ)) (rounded want tick off : ℕ)
      → want ≤ top
      → Reachable k top a live
      → allocate_from_arena (2 ^ k) top rounded want tick a ≡ some (off, a')
      → Reachable k top a' ((off, want) ∷ live)
  reordered :
      (a : Arena) (live : List (ℕ × ℕ)) (o first : ℕ)
      → o ≤ top
      → Reachable k top a live
      → holds first (set_at o a.free_sets) ≡ true
      → Reachable k top (begins first o a) live
  given :
      (a : Arena) (live : List (ℕ × ℕ)) (i off order rounded tick : ℕ)
      → Reachable k top a live
      → get_elem? live i ≡ some (off, order)
      → Reachable k top (free_to_arena (2 ^ k) top off order rounded tick a) (without i live)

live_cover-without :
    (size i : ℕ) (live : List (ℕ × ℕ)) {off o : ℕ} (x : ℕ)
    → get_elem? live i ≡ some (off, o)
    → live_cover size (without i live) x + covers (size_at size o) off x ≡ live_cover size live x
unfolding live_cover without
live_cover-without size i [] x e = cc
live_cover-without size zero ((off', o') ∷ live) x e = ground (arith, e)
live_cover-without size (suc i) ((off', o') ∷ live) x e =
    omega (arith, live_cover-without size i live x e)

abbrev new_sets : ℕ → List (List ℕ)
new_sets top = replicate top [] ++ ((0 ∷ []) ∷ [])

new_arena_cover :
    (top size x : ℕ) → sets_cover size (new_sets top) x ≡ covers (size_at size top) 0 x
unfolding sets_cover set_cover
new_arena_cover zero size x =
    let e : size_at size 0 ≡ size = unfold size_at in omega arith in
    omega (arith, ap (λ z. covers z 0 x) e)
new_arena_cover (suc top) size x =
    omega (arith, new_arena_cover top (size * 2) x, ap (λ z. covers z 0 x) (size_at-suc size top))

new_arena-aligned : (top b size : ℕ) → SetsAligned size b (new_sets top)
new_arena-aligned zero b size = (((0, omega arith), tt), tt)
new_arena-aligned (suc top) b size = (tt, new_arena-aligned top (suc b) size)

length-new_arena : (top : ℕ) → length (new_sets top) ≡ suc top
length-new_arena zero = refl
length-new_arena (suc top) = ap suc (length-new_arena top)

-- The blocks in use have an order of the arena and start at a multiple of their size.
abbrev LiveAligned : ℕ → ℕ → List (ℕ × ℕ) → Type 0
LiveAligned k top [] = Unit {0}
LiveAligned k top ((off, o) ∷ live) = (o ≤ top) × IsAligned (2 ^ k) o off × LiveAligned k top live

live-IsAligned :
    (k top i : ℕ) (live : List (ℕ × ℕ)) {off o : ℕ}
    → get_elem? live i ≡ some (off, o)
    → LiveAligned k top live
    → (o ≤ top) × IsAligned (2 ^ k) o off
live-IsAligned k top i [] e h = cc
live-IsAligned k top zero ((off', o') ∷ live) {off} {o} e h =
    let p : (off', o') ≡ (off, o) = cc in
    subst (λ (b : ℕ × ℕ). (b.1 ≤ top) × IsAligned (2 ^ k) b.1 b.0) p (h.0, h.1)
live-IsAligned k top (suc i) ((off', o') ∷ live) e h = live-IsAligned k top i live e h.2

without-aligned :
    (k top i : ℕ) (live : List (ℕ × ℕ))
    → LiveAligned k top live
    → LiveAligned k top (without i live)
unfolding without
without-aligned k top i [] h = tt
without-aligned k top zero (b ∷ live) h = h.2
without-aligned k top (suc i) (b ∷ live) h = (h.0, h.1, without-aligned k top i live h.2)

-- Every byte of the arena is covered by one block, free or in use, and no other byte by any.
record IsValid (k : ℕ) (top : ℕ) (a : Arena) (live : List (ℕ × ℕ)) : Type 0 where
  sized : length a.free_sets ≡ suc top
  once :
      (x : ℕ)
      → sets_cover (2 ^ k) a.free_sets x + live_cover (2 ^ k) live x
        ≡ covers (size_at (2 ^ k) top) 0 x
  free_aligned : SetsAligned (2 ^ k) 0 a.free_sets
  live_aligned : LiveAligned k top live

covers-le : (size off x : ℕ) → covers size off x ≤ 1
unfolding covers
covers-le size off x = ground arith

module _ (k top : ℕ) (fits : (o : ℕ) → o ≤ top → size_at (2 ^ k) o < 2 ^ 64) where
  taken-IsValid :
      (a a' : Arena) (live : List (ℕ × ℕ)) (rounded want tick off : ℕ)
      → want ≤ top
      → IsValid k top a live
      → allocate_from_arena (2 ^ k) top rounded want tick a ≡ some (off, a')
      → IsValid k top a' ((off, want) ∷ live)
  taken-IsValid a a' live rounded want tick off low v e =
      elim (Option-cases (take_block (2 ^ k) (top + 1 - want) 0 want a.free_sets)) [
        | inl n ↦ absurd (unfold allocate_from_arena in ground (arith, n, e))
        | inr ((off', sets), n) ↦
            let parts : (off' ≡ off) × (sets ≡ a'.free_sets) =
              unfold allocate_from_arena in ground (arith, n, e) in
            let n' : take_block (2 ^ k) (top + 1 - want) 0 want a.free_sets
                ≡ some (off, a'.free_sets) =
              ground (arith, n, parts) in
            let rounds : want + 0 + (top + 1 - want) ≡ suc top = omega (arith, low) in
            let aligned =
              take_block-IsAligned k top fits (top + 1 - want) 0 want a.free_sets
                (omega (arith, rounds)) v.free_aligned n' in
            record {
              sized =
                  length-take_block (2 ^ k) (top + 1 - want) 0 want a.free_sets
                    {r = (off, a'.free_sets)} n'
                  ∙ v.sized;
              once = λ x.
                  unfold live_cover in
                  omega (
                    arith,
                    take_block_cover (2 ^ k) top (one-le-pow k 2 (omega arith)) fits
                        (top + 1 - want) 0 want a.free_sets (omega (arith, rounds))
                        (omega (arith, rounds, v.sized))
                        (λ y. omega (arith, v.once y, covers-le (size_at (2 ^ k) top) 0 y)) n' x,
                    v.once x,
                  );
              free_aligned = aligned.1;
              live_aligned = (low, aligned.0, v.live_aligned);
            }
      ]

  reordered-IsValid :
      (a : Arena) (live : List (ℕ × ℕ)) (o first : ℕ)
      → o ≤ top
      → IsValid k top a live
      → holds first (set_at o a.free_sets) ≡ true
      → IsValid k top (begins first o a) live
  reordered-IsValid a live o first low v held =
      let s = set_at o a.free_sets in
      record {
        sized = length-at_order o (λ _. begin_with first s) a.free_sets ∙ v.sized;
        once = λ x. omega (
          arith,
          sets_cover-at_order (2 ^ k) o (λ _. begin_with first s) a.free_sets x
              (omega (arith, low, v.sized)),
          set_cover-begin_with (size_at (2 ^ k) o) first s x held,
          v.once x,
        );
        free_aligned =
            SetsAligned-at_order (2 ^ k) 0 o o (λ _. begin_with first s) a.free_sets (omega arith)
              (λ t ht.
                All-begin_with (IsAligned (2 ^ k) o) first s held
                  (set_at-IsAligned (2 ^ k) 0 o o a.free_sets (omega arith) v.free_aligned))
              v.free_aligned;
        live_aligned = v.live_aligned;
      }

  given-IsValid :
      (a : Arena) (live : List (ℕ × ℕ)) (i off order rounded tick : ℕ)
      → IsValid k top a live
      → get_elem? live i ≡ some (off, order)
      → IsValid k top (free_to_arena (2 ^ k) top off order rounded tick a) (without i live)
  given-IsValid a live i off order rounded tick v e =
      let (low, aligned) = live-IsAligned k top i live e v.live_aligned in
      let level : order + (top - order) ≡ top = omega (arith, low) in
      let back = λ (y : ℕ). live_cover-without (2 ^ k) i live y e in
      unfold free_to_arena in
      record {
        sized = length-merge_up (2 ^ k) (top - order) order off a.free_sets ∙ v.sized;
        once = λ x. omega (
          arith,
          merge_up_cover k top fits (top - order) order off aligned.0 a.free_sets
              (omega (arith, level)) (omega (arith, level, v.sized)) aligned.1
              (λ y. omega (arith, v.once y, back y, covers-le (size_at (2 ^ k) top) 0 y)) x,
          back x,
          v.once x,
        );
        free_aligned =
            merge_up-aligned k top fits (top - order) order off a.free_sets (omega (arith, level))
              aligned v.free_aligned;
        live_aligned = without-aligned k top i live v.live_aligned;
      }

  Reachable-IsValid_arena :
      {a : Arena} {live : List (ℕ × ℕ)} → Reachable k top a live → IsValid k top a live
  Reachable-IsValid_arena (created fresh bytes tick) =
      unfold new_arena live_cover in
      record {
        sized = length-new_arena top;
        once = λ x. omega (arith, new_arena_cover top (2 ^ k) x);
        free_aligned = new_arena-aligned top 0 (2 ^ k);
        live_aligned = tt;
      }
  Reachable-IsValid_arena (taken a a' live rounded want tick off low r e) =
      taken-IsValid a a' live rounded want tick off low (Reachable-IsValid_arena r) e
  Reachable-IsValid_arena (reordered a live o first low r held) =
      reordered-IsValid a live o first low (Reachable-IsValid_arena r) held
  Reachable-IsValid_arena (given a live i off order rounded tick r e) =
      given-IsValid a live i off order rounded tick (Reachable-IsValid_arena r) e

sizes_fit : (k top : ℕ) → k + top ≤ 63 → (o : ℕ) → o ≤ top → size_at (2 ^ k) o < 2 ^ 64
sizes_fit k top low o h =
    let small : 2 ^ (k + o) ≤ 2 ^ 63 =
      pow-le-pow_right {n = 2} (omega arith) {i = k + o} {j = 63} (omega arith) in
    omega (arith, small, pow_add k o)

-- Whatever was allocated in an arena and released again, in whatever order, and whichever element
-- begin() gives of a set: a byte of the arena belongs to exactly one block, a free one or one in use,
-- and a byte outside of it to none. So blocks in use never overlap. The arena has 2 ^ (k + top) bytes, with k + top at most 63.
pub Reachable-covered_once :
    (k top : ℕ) {a : Arena} {live : List (ℕ × ℕ)} (x : ℕ)
    → k + top ≤ 63
    → Reachable k top a live
    → (x < size_at (2 ^ k) top → sets_cover (2 ^ k) a.free_sets x + live_cover (2 ^ k) live x ≡ 1)
      × (size_at (2 ^ k) top ≤ x → sets_cover (2 ^ k) a.free_sets x + live_cover (2 ^ k) live x ≡ 0)
unfolding covers
Reachable-covered_once k top x low r =
    let once = (Reachable-IsValid_arena k top (sizes_fit k top low) r).once x in
    ground (arith, once)
