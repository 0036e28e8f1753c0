-- ===== src/Limits/Connections.antt =====
-- src/monitor/PerKeyConnectionLimiter.cpp: active connections per key. A limit that is not positive
-- switches the limiter off, so 0 stands for those below it.
use linux_highperf_proxy.Base.{
  ℕ, ◌+◌, ◌-◌, ◌≤◌, ◌<◌, ◌≡◌, sym, ap, List, [], ◌∷◌, none, some, Option-cases, Bool, inl, inr,
  true, false, ◌&&◌, ◌||◌, not, ltb, leb, ◌==◌, if◌then◌else◌, length, arith,
}
use linux_highperf_proxy.Base.Bytes.{bytes_eq, bytes_eq→eq}
use linux_highperf_proxy.Base.Maps.{
  find, put, remove, find-put, find-remove, length-put, length-put_known, length-remove,
}

-- cfg_ and entries_: a key and its `active`.
pub record Limiter : Type 0 where
  pub max_connections : ℕ
  pub max_entries : ℕ
  pub entries : List (List ℕ × ℕ)

-- The last part of TryAcquire, at an entry.
unfoldable pub acquire_entry : List ℕ → ℕ → Limiter → Bool × Limiter
acquire_entry key active l =
    if leb l.max_connections active
    then (false, record l { entries = put key active l.entries })
    else (true, record l { entries = put key (active + 1) l.entries })

unfoldable pub try_acquire : List ℕ → Limiter → Bool × Limiter
try_acquire key l = if l.max_connections == 0 then (true, l) else (elim (find key l.entries) [
  | none ↦
      if ltb 0 l.max_entries && leb l.max_entries (length l.entries)
      then (false, l)
      else acquire_entry key 0 l
  | some active ↦ acquire_entry key active l
])

unfoldable pub release : List ℕ → Limiter → Limiter
release key l = if l.max_connections == 0 then l else (elim (find key l.entries) [
  | none ↦ l
  | some active ↦
      if leb active 1
      then record l { entries = remove key l.entries }
      else record l { entries = put key (active - 1) l.entries }
])

-- The number of connections that a key has.
abbrev pub active : List ℕ → Limiter → ℕ
active key l = elim (find key l.entries) [ none ↦ 0 | some n ↦ n ]

abbrev pub known : List ℕ → Limiter → Bool
known key l = elim (find key l.entries) [ none ↦ false | some n ↦ true ]

-- Nobody is over the limit, and there are not too many keys.
pub record IsValid (l : Limiter) : Type 0 where
  pub bounded : (key : List ℕ) → active key l ≤ l.max_connections
  pub few : 0 < l.max_entries → length l.entries ≤ l.max_entries

active_same : (key j : List ℕ) (l : Limiter) → bytes_eq key j ≡ true → active j l ≡ active key l
active_same key j l h = ap (λ k. active k l) (sym (bytes_eq→eq key j h))

-- What a call does to the counts: TryAcquire that succeeds, with the limiter on, adds one to its key,
-- and one that fails adds nothing; no other key is touched.
pub try_acquire-active :
    (key j : List ℕ) (l : Limiter)
    → 0 < l.max_connections
    → active j (try_acquire key l).1
      ≡ (if (try_acquire key l).0 && bytes_eq key j then active j l + 1 else active j l)
unfolding try_acquire acquire_entry
try_acquire-active key j l on = elim (Option-cases (find key l.entries)) [
  | inl n ↦
      ground (arith, n, active_same key j l, find-put key j 0 l.entries, find-put key j 1 l.entries)
  | inr (a, e) ↦
      ground (
        arith,
        e,
        active_same key j l,
        find-put key j a l.entries,
        find-put key j (a + 1) l.entries,
      )
]

-- With the limiter on, TryAcquire refuses exactly the keys that are at the limit and the new keys for
-- which there is no room.
pub try_acquire_refuses :
    (key : List ℕ) (l : Limiter)
    → 0 < l.max_connections
    → (try_acquire key l).0 ≡ (
        ltb (active key l) l.max_connections
        && (known key l || not (ltb 0 l.max_entries && leb l.max_entries (length l.entries))))
unfolding try_acquire acquire_entry
try_acquire_refuses key l on = elim (Option-cases (find key l.entries)) [
  | inl n ↦ ground (arith, n)
  | inr (a, e) ↦ ground (arith, e)
]

-- Release takes one from its key, if it has one, and touches no other.
pub release-active :
    (key j : List ℕ) (l : Limiter)
    → 0 < l.max_connections
    → active j (release key l) ≡ (if bytes_eq key j then active j l - 1 else active j l)
unfolding release
release-active key j l on = elim (Option-cases (find key l.entries)) [
  | inl n ↦ ground (arith, n, active_same key j l)
  | inr (a, e) ↦
      ground (
        arith,
        e,
        active_same key j l,
        find-remove key j l.entries,
        find-put key j (a - 1) l.entries,
      )
]

-- A call of one of the two operations.
pub data Call : Type 0 where
  acquire : List ℕ → Call
  give_back : List ℕ → Call

unfoldable pub run : List Call → Limiter → Limiter
run [] l = l
run (acquire key ∷ calls) l = run calls (try_acquire key l).1
run (give_back key ∷ calls) l = run calls (release key l)

try_acquire-limits :
    (key : List ℕ) (l : Limiter)
    → ((try_acquire key l).1.max_connections ≡ l.max_connections)
      × ((try_acquire key l).1.max_entries ≡ l.max_entries)
unfolding try_acquire acquire_entry
try_acquire-limits key l = ground arith

release-limits :
    (key : List ℕ) (l : Limiter)
    → ((release key l).max_connections ≡ l.max_connections)
      × ((release key l).max_entries ≡ l.max_entries)
unfolding release
release-limits key l = ground arith

try_acquire-length :
    (key : List ℕ) (l : Limiter)
    → (0 < l.max_entries → length l.entries ≤ l.max_entries)
    → 0 < l.max_entries
    → length (try_acquire key l).1.entries ≤ l.max_entries
unfolding try_acquire acquire_entry
try_acquire-length key l few some_max = elim (Option-cases (find key l.entries)) [
  | inl n ↦ ground (arith, n, few some_max, length-put key 0 l.entries, length-put key 1 l.entries)
  | inr (a, e) ↦ ground (
    arith,
    e,
    few some_max,
    length-put_known key a a l.entries e,
    length-put_known key (a + 1) a l.entries e,
  )
]

release-length : (key : List ℕ) (l : Limiter) → length (release key l).entries ≤ length l.entries
unfolding release
release-length key l = elim (Option-cases (find key l.entries)) [
  | inl n ↦ ground (arith, n)
  | inr (a, e) ↦
      ground (arith, e, length-remove key l.entries, length-put_known key (a - 1) a l.entries e)
]

try_acquire-IsValid :
    (key : List ℕ) (l : Limiter) → 0 < l.max_connections → IsValid l → IsValid (try_acquire key l).1
try_acquire-IsValid key l on v =
    let same = try_acquire-limits key l in
    record {
      bounded = λ j. ground (
        arith,
        same.0,
        try_acquire-active key j l on,
        try_acquire_refuses key l on,
        active_same key j l,
        v.bounded j,
      );
      few = λ h. omega (arith, same.1, try_acquire-length key l v.few (omega (arith, same.1, h)));
    }

release-IsValid :
    (key : List ℕ) (l : Limiter) → 0 < l.max_connections → IsValid l → IsValid (release key l)
release-IsValid key l on v =
    let same = release-limits key l in
    record {
      bounded = λ j. ground (arith, same.0, release-active key j l on, v.bounded j);
      few = λ h. omega (arith, same.1, release-length key l, v.few (omega (arith, same.1, h)));
    }

-- Whatever calls are made, in whatever order: no key has more connections than the limit, and the map
-- has no more keys than its cap, if these hold at the start and the limiter is on.
pub run-IsValid :
    (calls : List Call) (l : Limiter) → 0 < l.max_connections → IsValid l → IsValid (run calls l)
unfolding run
run-IsValid [] l on v = v
run-IsValid (acquire key ∷ calls) l on v =
    run-IsValid calls (try_acquire key l).1 (omega (arith, (try_acquire-limits key l).0))
      (try_acquire-IsValid key l on v)
run-IsValid (give_back key ∷ calls) l on v =
    run-IsValid calls (release key l) (omega (arith, (release-limits key l).0))
      (release-IsValid key l on v)
