-- ===== src/Memory/Buddy/Blocks.antt =====
-- BuddyAllocator: splitting and merging keep the bytes that the free blocks cover.
use linux_highperf_proxy.Base.{
  ℕ, zero, suc, ◌+◌, ◌*◌, ◌^◌, ◌≤◌, ◌<◌, ◌≡◌, refl, sym, ap, ◌∙◌, List, [], ◌∷◌, some, Bool-cases,
  List-cases, true, false, inl, inr, ◌&&◌, ltb, leb, ◌==◌, if◌then◌else◌, length, arith,
}
use linux_highperf_proxy.Memory.Buddy.{
  order_to_size, holds, set_insert, set_erase, begin_with, at_order, set_at, split_down, take_block,
}
use native.Mathlib.Nat.{pow-suc, one-le-pow}

-- 1 if a block of `size` bytes at `off` covers the byte `x`, else 0.
unfoldable pub covers : ℕ → ℕ → ℕ → ℕ
covers size off x = if leb off x && ltb x (off + size) then 1 else 0

-- How many of the blocks at these offsets cover the byte.
unfoldable pub set_cover : ℕ → List ℕ → ℕ → ℕ
set_cover size [] x = 0
set_cover size (off ∷ s) x = covers size off x + set_cover size s x

-- How many of the free blocks of all orders, from blocks of `size` bytes on, cover the byte.
unfoldable pub sets_cover : ℕ → List (List ℕ) → ℕ → ℕ
sets_cover size [] x = 0
sets_cover size (s ∷ ss) x = set_cover size s x + sets_cover (size * 2) ss x

set_cover_cons :
    (size off : ℕ) (s : List ℕ) (x : ℕ)
    → set_cover size (off ∷ s) x ≡ covers size off x + set_cover size s x
unfolding set_cover
set_cover_cons size off s x = refl

pub covers-halves :
    (size off x : ℕ) → covers (size * 2) off x ≡ covers size off x + covers size (off + size) x
unfolding covers
covers-halves size off x = ground arith

pub covers_self : (size off : ℕ) → 0 < size → covers size off off ≡ 1
unfolding covers
covers_self size off h = ground arith

pub holds-covered :
    (size off : ℕ) (s : List ℕ) → 0 < size → holds off s ≡ true → 1 ≤ set_cover size s off
unfolding holds set_cover
holds-covered size off [] h held = cc
holds-covered size off (y ∷ ys) h held = elim (Bool-cases (y == off)) [
  | inl e ↦ ground (arith, e, covers_self size off h)
  | inr e ↦ ground (arith, e, held, holds-covered size off ys h)
]

set_cover-set_insert :
    (size off : ℕ) (s : List ℕ) (x : ℕ)
    → holds off s ≡ false
    → set_cover size (set_insert off s) x ≡ covers size off x + set_cover size s x
unfolding set_insert set_cover
set_cover-set_insert size off s x h = ground (arith, h)

set_cover-set_erase :
    (size off : ℕ) (s : List ℕ) (x : ℕ)
    → holds off s ≡ true
    → set_cover size (set_erase off s) x + covers size off x ≡ set_cover size s x
unfolding holds set_erase set_cover
set_cover-set_erase size off [] x h = cc
set_cover-set_erase size off (y ∷ ys) x h = ground (arith, h, set_cover-set_erase size off ys x)

pub set_cover-begin_with :
    (size off : ℕ) (s : List ℕ) (x : ℕ)
    → holds off s ≡ true
    → set_cover size (begin_with off s) x ≡ set_cover size s x
unfolding begin_with set_cover
set_cover-begin_with size off s x h = omega (arith, set_cover-set_erase size off s x h)

-- The size of the blocks of order `o`, if those of order 0 have `size` bytes.
unfoldable pub size_at : ℕ → ℕ → ℕ
size_at size o = size * 2 ^ o

pub size_at-suc : (size o : ℕ) → size_at size (suc o) ≡ size_at (size * 2) o
unfolding size_at
size_at-suc size o = omega (arith, ap (λ t. size * t) (pow-suc 2 o))

-- A change of one set changes the cover by what that set covers.
pub sets_cover-at_order :
    (size i : ℕ) (f : List ℕ → List ℕ) (sets : List (List ℕ)) (x : ℕ)
    → i < length sets
    → sets_cover size (at_order i f sets) x + set_cover (size_at size i) (set_at i sets) x
      ≡ sets_cover size sets x + set_cover (size_at size i) (f (set_at i sets)) x
unfolding sets_cover at_order set_at
sets_cover-at_order size i f [] x h = absurd (omega arith)
sets_cover-at_order size zero f (s ∷ ss) x h =
    let e : size_at size 0 ≡ size = unfold size_at in omega arith in
    omega (arith, ap (λ z. set_cover z s x) e, ap (λ z. set_cover z (f s) x) e)
sets_cover-at_order size (suc i) f (s ∷ ss) x h =
    let t = set_at i ss in
    omega (
      arith,
      sets_cover-at_order (size * 2) i f ss x (omega (arith, h)),
      ap (λ z. set_cover z t x) (size_at-suc size i),
      ap (λ z. set_cover z (f t) x) (size_at-suc size i),
    )

-- One set covers no more than all.
pub set_cover-le :
    (size i : ℕ) (sets : List (List ℕ)) (x : ℕ)
    → set_cover (size_at size i) (set_at i sets) x ≤ sets_cover size sets x
unfolding sets_cover set_at set_cover
set_cover-le size i [] x = omega arith
set_cover-le size zero (s ∷ ss) x =
    let e : size_at size 0 ≡ size = unfold size_at in omega arith in
    omega (arith, ap (λ z. set_cover z s x) e)
set_cover-le size (suc i) (s ∷ ss) x =
    let t = set_at i ss in
    omega (arith, set_cover-le (size * 2) i ss x, ap (λ z. set_cover z t x) (size_at-suc size i))

pub length-at_order :
    (i : ℕ) (f : List ℕ → List ℕ) (sets : List (List ℕ)) → length (at_order i f sets) ≡ length sets
unfolding at_order
length-at_order i f [] = refl
length-at_order zero f (s ∷ ss) = refl
length-at_order (suc i) f (s ∷ ss) = omega (arith, length-at_order i f ss)

-- A block none of whose order covers its first byte is added.
pub insert_cover :
    (size i off : ℕ) (sets : List (List ℕ)) (x : ℕ)
    → 0 < size_at size i
    → i < length sets
    → sets_cover size sets off ≡ 0
    → sets_cover size (at_order i (set_insert off) sets) x
      ≡ sets_cover size sets x + covers (size_at size i) off x
insert_cover size i off sets x pos_ h free = elim (Bool-cases (holds off (set_at i sets))) [
  | inl e ↦ absurd (
      omega (
        arith,
        holds-covered (size_at size i) off (set_at i sets) pos_ e,
        set_cover-le size i sets off,
        free,
      ))
  | inr e ↦ omega (
    arith,
    sets_cover-at_order size i (set_insert off) sets x h,
    set_cover-set_insert (size_at size i) off (set_at i sets) x e,
  )
]

-- A block that is free in its order is taken away.
pub erase_cover :
    (size i off : ℕ) (sets : List (List ℕ)) (x : ℕ)
    → i < length sets
    → holds off (set_at i sets) ≡ true
    → sets_cover size (at_order i (set_erase off) sets) x + covers (size_at size i) off x
      ≡ sets_cover size sets x
erase_cover size i off sets x h held = omega (
  arith,
  sets_cover-at_order size i (set_erase off) sets x h,
  set_cover-set_erase (size_at size i) off (set_at i sets) x held,
)

pub size_at-double : (size o : ℕ) → size_at size (suc o) ≡ size_at size o * 2
unfolding size_at
size_at-double size o = omega (arith, ap (λ t. size * t) (pow-suc 2 o))

pub size_at_pos : (size o : ℕ) → 0 < size → 0 < size_at size o
unfolding size_at
size_at_pos size o h = grind (arith, one-le-pow o 2)

-- Sizes below the bound of a size_t do not wrap.
module _ (size top : ℕ) (some_size : 0 < size)
    (fits : (o : ℕ) → o ≤ top → size_at size o < 2 ^ 64) where
  pub order_to_size_lem : (o : ℕ) → o ≤ top → order_to_size size o ≡ size_at size o
  unfolding order_to_size size_at
  order_to_size_lem o h = omega (arith, fits o h)

  pub covers-size_at :
      (o off x : ℕ)
      → covers (size_at size (suc o)) off x
        ≡ covers (size_at size o) off x + covers (size_at size o) (off + size_at size o) x
  covers-size_at o off x =
      ap (λ z. covers z off x) (size_at-double size o) ∙ covers-halves (size_at size o) off x

  -- Splitting gives the upper halves back.
  pub split_down_cover :
      (d want off : ℕ) (sets : List (List ℕ))
      → want + d ≤ top
      → want + d < length sets
      → ((x : ℕ) → sets_cover size sets x + covers (size_at size (want + d)) off x ≤ 1)
      → (x : ℕ)
      → sets_cover size (split_down size d want off sets) x + covers (size_at size want) off x
        ≡ sets_cover size sets x + covers (size_at size (want + d)) off x
  unfolding split_down
  split_down_cover zero want off sets low there apart x =
      let e : want + 0 ≡ want = omega arith in
      ap (λ o. sets_cover size sets x + covers (size_at size o) off x) (sym e)
  split_down_cover (suc d) want off sets low there apart x =
      let o = want + d in
      let half = off + order_to_size size o in
      let up : want + suc d ≡ suc o = omega arith in
      let where_ : half ≡ off + size_at size o =
        ap (λ n. off + n) (order_to_size_lem o (omega arith)) in
      let whole : (y : ℕ)
          → covers (size_at size (want + suc d)) off y
            ≡ covers (size_at size o) off y + covers (size_at size o) half y =
        λ y.
          ap (λ n. covers (size_at size n) off y) up
          ∙ covers-size_at o off y
          ∙ ap (λ n. covers (size_at size o) off y + covers (size_at size o) n y) (sym where_) in
      let some_bytes = size_at_pos size o some_size in
      let free : sets_cover size sets half ≡ 0 =
        omega (arith, apart half, whole half, covers_self (size_at size o) half some_bytes) in
      let added = λ (y : ℕ). insert_cover size o half sets y some_bytes (omega arith) free in
      omega (
        arith,
        split_down_cover d want off (at_order o (set_insert half) sets) (omega arith)
            (omega (arith, length-at_order o (set_insert half) sets))
            (λ y. omega (arith, added y, whole y, apart y)) x,
        added x,
        whole x,
      )

  -- What the free blocks covered is covered by the free blocks that are left or by the block taken.
  pub take_block_cover :
      (rounds d want : ℕ) (sets : List (List ℕ)) {off : ℕ} {left : List (List ℕ)}
      → want + d + rounds ≤ suc top
      → want + d + rounds ≤ length sets
      → ((x : ℕ) → sets_cover size sets x ≤ 1)
      → take_block size rounds d want sets ≡ some (off, left)
      → (x : ℕ) → sets_cover size left x + covers (size_at size want) off x ≡ sets_cover size sets x
  unfolding take_block
  take_block_cover zero d want sets low there apart e x = cc
  take_block_cover (suc rounds) d want sets {off} {left} low there apart e x =
      let o = want + d in
      elim (List-cases (set_at o sets)) [
        | inl n ↦
            let e' : take_block size rounds (d + 1) want sets ≡ some (off, left) =
              ground (arith, n, e) in
            take_block_cover rounds (d + 1) want sets (omega (arith, low)) (omega (arith, there))
              apart e' x
        | inr (off', rest, n) ↦
            let sets' = at_order o (λ _. rest) sets in
            let taken : (y : ℕ)
                → sets_cover size sets' y + covers (size_at size o) off' y
                  ≡ sets_cover size sets y =
              λ y. omega (
                arith,
                sets_cover-at_order size o (λ _. rest) sets y (omega (arith, there)),
                ap (λ z. set_cover (size_at size o) z y) n,
                set_cover_cons (size_at size o) off' rest y,
              ) in
            ground (
              arith,
              n,
              e,
              taken x,
              split_down_cover d want off' sets' (omega (arith, low))
                  (omega (arith, there, length-at_order o (λ _. rest) sets))
                  (λ y. omega (arith, taken y, apart y)) x,
            )
      ]
