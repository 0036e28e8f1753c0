-- ===== src/Hpack/Table/Evict.antt =====
-- Hpack's dynamic table against its specification: the newest entries that fit its size.
use linux_highperf_proxy.Base.{
  ℕ, zero, suc, ◌+◌, ◌-◌, ◌%◌, ◌^◌, ◌≤◌, ◌<◌, ◌≡◌, refl, List, [], ◌∷◌, leb, if◌then◌else◌, length,
  arith,
}
use linux_highperf_proxy.Base.Bytes.{sub_size}
use linux_highperf_proxy.Hpack.StaticTable.{Header, entry_size}
use linux_highperf_proxy.Hpack.Table.{
  Table, init, back, pop_back, evict, evict_all, update_max_size, add_dynamic,
}

-- RFC 7541, 4.1: the size of a table is the sum of its entries' sizes.
abbrev pub total : List Header → ℕ
total [] = 0
total (e ∷ es) = entry_size e + total es

-- The longest front part, newest first, whose size is `max` at most.
pub keep : ℕ → List Header → List Header
keep max [] = []
keep max (e ∷ es) =
    let rest = keep (max - entry_size e) es in if leb (entry_size e) max then e ∷ rest else []

-- The recorded size is right and within the maximum, which is a uint32.
pub record IsValid (t : Table) : Type 0 where
  pub counted : t.dynamic_size ≡ total t.dynamic
  pub within : t.dynamic_size ≤ t.max_size
  pub word : t.max_size < 2 ^ 32

-- The table of maximum `max` that holds the newest of some entries.
abbrev pub newest : ℕ → List Header → Table
newest max es = record { dynamic = keep max es; dynamic_size = total (keep max es); max_size = max }

total-pop_back :
    (e : Header) (es : List Header)
    → total (e ∷ es) ≡ total (pop_back e es) + entry_size (back e es)
unfolding pop_back back
total-pop_back e [] = omega arith
total-pop_back e (e' ∷ es) = omega (arith, total-pop_back e' es)

length-pop_back : (e : Header) (es : List Header) → length (pop_back e es) ≡ length es
unfolding pop_back
length-pop_back e [] = refl
length-pop_back e (e' ∷ es) = omega (arith, length-pop_back e' es)

keep_all : (max : ℕ) (es : List Header) → total es ≤ max → keep max es ≡ es
unfolding keep
keep_all max [] h = refl
keep_all max (e ∷ es) h = ground (arith, keep_all (max - entry_size e) es)

keep_large : (max : ℕ) (e : Header) (es : List Header) → max < entry_size e → keep max (e ∷ es) ≡ []
unfolding keep
keep_large max e es h = ground arith

-- Where not everything fits, the oldest entry does not matter.
keep-pop_back :
    (max : ℕ) (e : Header) (es : List Header)
    → max < total (e ∷ es)
    → keep max (e ∷ es) ≡ keep max (pop_back e es)
unfolding keep pop_back
keep-pop_back max e [] h = ground arith
keep-pop_back max e (e' ∷ es) h = ground (arith, keep-pop_back (max - entry_size e) e' es)

pub keep-total : (max : ℕ) (es : List Header) → total (keep max es) ≤ max
unfolding keep
keep-total max [] = omega arith
keep-total max (e ∷ es) = ground (arith, keep-total (max - entry_size e) es)

evict-newest :
    (fuel : ℕ) (t : Table) (es : List Header)
    → t.dynamic ≡ es
    → t.dynamic_size ≡ total es
    → total es < 2 ^ 64
    → length es ≤ fuel
    → evict fuel t es ≡ newest t.max_size es
unfolding evict
evict-newest fuel t [] e s small le = unfold keep in ground arith
evict-newest zero t (x ∷ es) e s small le = absurd (omega arith)
evict-newest (suc fuel) t (x ∷ es) e s small le =
    let next : Table = record t {
      dynamic = pop_back x es;
      dynamic_size = sub_size t.dynamic_size (entry_size (back x es));
    } in
    ground (
      arith,
      total-pop_back x es,
      length-pop_back x es,
      keep_all t.max_size (x ∷ es),
      keep-pop_back t.max_size x es,
      evict-newest fuel next (pop_back x es) refl,
    )

evict_all-newest :
    (t : Table)
    → t.dynamic_size ≡ total t.dynamic
    → total t.dynamic < 2 ^ 64
    → evict_all t ≡ newest t.max_size t.dynamic
unfolding evict_all
evict_all-newest t s small = evict-newest (length t.dynamic) t t.dynamic refl s small (omega arith)

-- After UpdateMaxSize the table holds the newest of its entries that fit the new maximum.
pub update_max_size-newest :
    (n : ℕ) (t : Table) → IsValid t → update_max_size n t ≡ newest n t.dynamic
unfolding update_max_size
update_max_size-newest n t v = evict_all-newest (record t { max_size = n }) v.counted (ground arith)

-- After AddDynamic the table holds the newest of the new entry and the old ones that fit, in that
-- order: nothing, if the new entry alone is too large.
pub add_dynamic-newest :
    (e : Header) (t : Table) → IsValid t → add_dynamic e t ≡ newest t.max_size (e ∷ t.dynamic)
unfolding add_dynamic
add_dynamic-newest e t v =
    let t' : Table = record t {
      dynamic = e ∷ t.dynamic;
      dynamic_size = (t.dynamic_size + entry_size e) % 2 ^ 64;
    } in
    ground (arith, keep_large t.max_size e t.dynamic, evict_all-newest t')

newest-IsValid : (max : ℕ) (es : List Header) → max < 2 ^ 32 → IsValid (newest max es)
newest-IsValid max es h = record { counted = refl; within = keep-total max es; word = h }

-- Every operation keeps the recorded size equal to the sum of the entries and within the maximum.
pub add_dynamic-IsValid : (e : Header) (t : Table) → IsValid t → IsValid (add_dynamic e t)
add_dynamic-IsValid e t v =
    rw (add_dynamic-newest e t v) (newest-IsValid t.max_size (e ∷ t.dynamic) v.word)

pub update_max_size-IsValid :
    (n : ℕ) (t : Table) → n < 2 ^ 32 → IsValid t → IsValid (update_max_size n t)
update_max_size-IsValid n t h v = rw (update_max_size-newest n t v) (newest-IsValid n t.dynamic h)

pub init-IsValid : IsValid init
unfolding init
init-IsValid = record { counted = refl; within = omega arith; word = omega arith }
