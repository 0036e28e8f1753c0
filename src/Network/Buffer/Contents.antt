-- ===== src/Network/Buffer/Contents.antt =====
-- A Buffer is a queue of bytes: Append adds at its end, Retrieve takes from its front.
use linux_highperf_proxy.Base.{
  ℕ, ◌+◌, ◌-◌, ◌*◌, ◌%◌, ◌^◌, ◌≤◌, ◌<◌, ◌≡◌, refl, sym, ap, ◌∙◌, List, [], ◌++◌, ◌⊎◌, append-nil,
  subst, ltb, leb, length, take, drop, length-append, length-take, length-drop, take-append-drop,
  take-length-append, append_assoc, arith, drop-take, take-append_more, drop_append, drop-drop,
  take-take, take_all, Bool-cases, inl, inr,
}
use linux_highperf_proxy.Network.Buffer.{
  Buffer, copy_to, readable_bytes, writable_bytes, peek, contents, retrieve, retrieve_all,
  retrieve_as_string, has_written, make_space, new_capacity, ensure_writable_bytes, append, Readv,
  failed, got, read_room, store_read, read_fd,
}

-- The indices are in order and behind the eight bytes in front, and the memory has the capacity.
pub record IsValid (b : Buffer) : Type 0 where
  pub front : 8 ≤ b.reader_index
  pub order : b.reader_index ≤ b.writer_index
  pub within : b.writer_index ≤ b.capacity
  pub whole : length b.mem ≡ b.capacity
  pub word : b.capacity < 2 ^ 64

-- What stands between two indices.
abbrev span : ℕ → ℕ → List ℕ → List ℕ
span r w mem = take (w - r) (drop r mem)

contents-span : (b : Buffer) → IsValid b → contents b ≡ span b.reader_index b.writer_index b.mem
unfolding peek
contents-span b v =
    ap (λ n. take n (drop b.reader_index b.mem)) (ground (arith, v.order, v.within, v.word))

length-span : (r w : ℕ) (mem : List ℕ) → w ≤ length mem → length (span r w mem) ≡ w - r
length-span r w mem h = omega (arith, length-take (w - r) (drop r mem), length-drop r mem)

-- Bytes that are copied to the end of a span make it longer.
span-copy_to :
    (r k : ℕ) (src mem : List ℕ)
    → r + k ≤ length mem
    → span r (r + k + length src) (copy_to (r + k) src mem) ≡ span r (r + k) mem ++ src
unfolding copy_to
span-copy_to r k src mem h =
    let tail = drop (r + k + length src) mem in
    let len : length (take (r + k) mem) ≡ r + k = omega (arith, length-take (r + k) mem) in
    let cut = drop_append r (take (r + k) mem) (src ++ tail) (omega arith) in
    let front = drop-take r (r + k) k mem refl in
    let n : r + k + length src - r ≡ length (take k (drop r mem)) + length src =
      omega (arith, length-take k (drop r mem), length-drop r mem) in
    let m : r + k - r ≡ k = omega arith in
    rw (cut, front, m)
      (take-append_more (r + k + length src - r) (length src) (take k (drop r mem)) (src ++ tail) n
        ∙ ap (◌++◌ (take k (drop r mem))) (take-length-append src tail))

length-copy_to :
    (at : ℕ) (src mem : List ℕ)
    → at + length src ≤ length mem
    → length (copy_to at src mem) ≡ length mem
unfolding copy_to
length-copy_to at src mem h = omega (
  arith,
  length-append (take at mem) (src ++ drop (at + length src) mem),
  length-append src (drop (at + length src) mem),
  length-take at mem,
  length-drop (at + length src) mem,
)

-- What has been copied behind the eight bytes of a buffer is what the buffer holds.
copied-IsValid :
    (cs mem : List ℕ) (cap w : ℕ)
    → length mem ≡ cap
    → w ≡ 8 + length cs
    → w ≤ cap
    → cap < 2 ^ 64
    → let b : Buffer = record {
      mem = copy_to 8 cs mem;
      capacity = cap;
      reader_index = 8;
      writer_index = w;
    } in
      IsValid b × (contents b ≡ cs)
copied-IsValid cs mem cap w whole e fits word =
    let b : Buffer = record {
      mem = copy_to 8 cs mem;
      capacity = cap;
      reader_index = 8;
      writer_index = w;
    } in
    let v : IsValid b = record {
      front = omega arith;
      order = omega arith;
      within = fits;
      whole = length-copy_to 8 cs mem (omega arith) ∙ whole;
      word = word;
    } in
    (
      v,
      contents-span b v
          ∙ ap (λ i. span 8 i (copy_to 8 cs mem)) e
          ∙ span-copy_to 8 0 cs mem (omega arith),
    )

-- Bytes that are written behind the readable ones are read behind them.
written-IsValid :
    (src : List ℕ) (b : Buffer) (w : ℕ)
    → IsValid b
    → w ≡ b.writer_index + length src
    → w ≤ b.capacity
    → let b' : Buffer = record b { mem = copy_to b.writer_index src b.mem; writer_index = w } in
      IsValid b' × (contents b' ≡ contents b ++ src)
written-IsValid src b w v e fits =
    let r = b.reader_index in
    let k = b.writer_index - r in
    let b' : Buffer = record b { mem = copy_to b.writer_index src b.mem; writer_index = w } in
    let v' : IsValid b' = record {
      front = v.front;
      order = omega (arith, v.order);
      within = fits;
      whole = length-copy_to b.writer_index src b.mem (omega (arith, v.whole)) ∙ v.whole;
      word = v.word;
    } in
    let at : b.writer_index ≡ r + k = omega (arith, v.order) in
    (
      v',
      contents-span b' v'
          ∙ ap (λ i. span r i (copy_to b.writer_index src b.mem)) e
          ∙ ap (λ i. span r (i + length src) (copy_to i src b.mem)) at
          ∙ span-copy_to r k src b.mem (omega (arith, v.order, v.within, v.whole))
          ∙ ap (λ i. span r i b.mem ++ src) (sym at)
          ∙ ap (λ xs. xs ++ src) (sym (contents-span b v)),
    )

length-contents : (b : Buffer) → IsValid b → length (contents b) ≡ b.writer_index - b.reader_index
length-contents b v =
    ap length (contents-span b v)
    ∙ length-span b.reader_index b.writer_index b.mem (omega (arith, v.within, v.whole))

readable_lem : (b : Buffer) → IsValid b → readable_bytes b ≡ b.writer_index - b.reader_index
readable_lem b v = ground (arith, v.order, v.within, v.word)

writable_lem : (b : Buffer) → IsValid b → writable_bytes b ≡ b.capacity - b.writer_index
writable_lem b v = ground (arith, v.order, v.within, v.word)

-- A resize makes room for `n` more bytes than the capacity was, or doubles it if that is more.
new_capacity_lem :
    (cap n : ℕ)
    → cap * 2 + n + 8 < 2 ^ 64
    → (cap + n ≤ new_capacity cap n) × (new_capacity cap n < 2 ^ 64)
unfolding new_capacity
new_capacity_lem cap n small = ground arith

-- With room for `n` more bytes a buffer holds what it held.
ensure_writable_bytes-contents :
    (fresh : ℕ → List ℕ)
    → ((n : ℕ) → length (fresh n) ≡ n)
    → (n : ℕ) (b : Buffer) → IsValid b
    → b.capacity * 2 + n + 8 < 2 ^ 64
    → let b' = ensure_writable_bytes fresh n b in
      IsValid b' × (contents b' ≡ contents b) × (b'.writer_index + n ≤ b'.capacity)
unfolding ensure_writable_bytes make_space
ensure_writable_bytes-contents fresh sized n b v small =
    let cap = new_capacity b.capacity n in
    let at = (8 + readable_bytes b) % 2 ^ 64 in
    let read = readable_lem b v in
    let free = writable_lem b v in
    let len = length-contents b v in
    let grow = new_capacity_lem b.capacity n small in
    let at' : at ≡ 8 + length (contents b) = omega (arith, v.front, v.within, v.word, read, len) in
    elim (Bool-cases (ltb (writable_bytes b) n)) [
      | inr e ↦ rw e (v, refl, ground (arith, e, free, v.within))
      | inl e ↦
          elim (Bool-cases
            (ltb ((writable_bytes b + b.reader_index) % 2 ^ 64) ((n + 8) % 2 ^ 64))) [
              | inl e' ↦
                  let (v', same) =
                    copied-IsValid (contents b) (fresh cap) cap at (sized cap) at'
                      (omega (arith, len, grow.0, v.front, v.order, v.within, at'))
                      (omega (arith, grow.1)) in
                  rw (e, e') (v', same, omega (arith, len, grow.0, v.front, v.order, v.within, at'))
              | inr e' ↦
                  let room : n + 8 ≤ writable_bytes b + b.reader_index =
                    ground (arith, e', free, small, v.within, v.order) in
                  let (v', same) =
                    copied-IsValid (contents b) b.mem b.capacity at v.whole at'
                      (omega (arith, len, v.front, v.order, v.within, at')) v.word in
                  rw (e, e')
                    (v', same, omega (arith, len, room, free, v.front, v.order, v.within, at'))
            ]
    ]

-- Append adds bytes behind those that the buffer holds, whether or not it has to move them or to
-- allocate: the buffer stays well formed. The capacity is far enough below 2^64.
pub append-contents :
    (fresh : ℕ → List ℕ)
    → ((n : ℕ) → length (fresh n) ≡ n)
    → (src : List ℕ) (b : Buffer) → IsValid b
    → b.capacity * 2 + length src + 8 < 2 ^ 64
    → IsValid (append fresh src b) × (contents (append fresh src b) ≡ contents b ++ src)
unfolding append has_written
append-contents fresh sized src b v small =
    let n = length src in
    let (v', same, room) = ensure_writable_bytes-contents fresh sized n b v small in
    let b' = ensure_writable_bytes fresh n b in
    let w : (b'.writer_index + n) % 2 ^ 64 ≡ b'.writer_index + n = omega (arith, room, v'.word) in
    let (v'', e) =
      written-IsValid src b' ((b'.writer_index + n) % 2 ^ 64) v' w (omega (arith, room, w)) in
    (v'', e ∙ ap (λ xs. xs ++ src) same)

-- RetrieveAsString of at most as many bytes as the buffer holds gives the first ones and leaves the
-- others, in a buffer that is well formed.
pub retrieve_as_string-contents :
    (n : ℕ) (b : Buffer)
    → IsValid b
    → n ≤ length (contents b)
    → let (s, b') = retrieve_as_string n b in
      (s ≡ take n (contents b)) × (contents b' ≡ drop n (contents b)) × IsValid b'
unfolding retrieve_as_string retrieve retrieve_all peek
retrieve_as_string-contents n b v le =
    let r = b.reader_index in
    let k = b.writer_index - r in
    let read = readable_lem b v in
    let le' : n ≤ k = omega (arith, le, length-contents b v) in
    let given = sym (ap (take n) (contents-span b v) ∙ take-take n k (drop r b.mem) le') in
    let left : drop n (contents b) ≡ take (k - n) (drop (r + n) b.mem) =
      ap (drop n) (contents-span b v)
      ∙ drop-take n k (k - n) (drop r b.mem) (omega (arith, le'))
      ∙ ap (take (k - n)) (drop-drop n r b.mem) in
    elim (Bool-cases (ltb n (readable_bytes b))) [
      | inl e ↦
          let v' : IsValid (record b { reader_index = r + n }) = record {
            front = omega (arith, v.front);
            order = omega (arith, le', v.order);
            within = v.within;
            whole = v.whole;
            word = v.word;
          } in
          let at : (r + n) % 2 ^ 64 ≡ r + n = omega (arith, le', v.order, v.within, v.word) in
          let same : b.writer_index - (r + n) ≡ k - n = omega arith in
          rw (e, at)
            (
              given,
              contents-span (record b { reader_index = r + n }) v'
                  ∙ ap (λ i. take i (drop (r + n) b.mem)) same
                  ∙ sym left,
              v',
            )
      | inr e ↦
          let none_left : k - n ≡ 0 = ground (arith, e, read) in
          let v' : IsValid (record b { reader_index = 8; writer_index = 8 }) = record {
            front = omega arith;
            order = omega arith;
            within = omega (arith, v.front, v.order, v.within);
            whole = v.whole;
            word = v.word;
          } in
          rw e (given, sym (left ∙ ap (λ i. take i (drop (r + n) b.mem)) none_left), v')
    ]

store_read-contents :
    (fresh : ℕ → List ℕ)
    → ((n : ℕ) → length (fresh n) ≡ n)
    → (bytes : List ℕ) (b : Buffer) → IsValid b
    → b.capacity * 2 + length bytes + 8 < 2 ^ 64
    → IsValid (store_read fresh bytes b)
      × (contents (store_read fresh bytes b) ≡ contents b ++ bytes)
unfolding store_read
store_read-contents fresh sized bytes b v small =
    let free = writable_lem b v in
    let n = writable_bytes b in
    elim (Bool-cases (leb (length bytes) n)) [
      | inl e ↦
          let small_read : length bytes ≤ n = ground (arith, e) in
          let w : (b.writer_index + length bytes) % 2 ^ 64 ≡ b.writer_index + length bytes =
            omega (arith, small_read, free, v.within, v.word) in
          rw (e, take_all n bytes small_read)
            (written-IsValid bytes b ((b.writer_index + length bytes) % 2 ^ 64) v w
              (omega (arith, small_read, free, v.within, w)))
      | inr e ↦
          let large_read : n < length bytes = ground (arith, e) in
          let front = take n bytes in
          let len : length front ≡ n = omega (arith, length-take n bytes, large_read) in
          let b' : Buffer = record b {
            mem = copy_to b.writer_index front b.mem;
            writer_index = b.capacity;
          } in
          let (v', held) =
            written-IsValid front b b.capacity v (omega (arith, len, free, v.within))
              (omega arith) in
          let (v'', held') =
            append-contents fresh sized (drop n bytes) b' v' (omega (arith, length-drop n bytes)) in
          rw e (
            v'',
            held'
                ∙ ap (λ xs. xs ++ drop n bytes) held
                ∙ append_assoc (contents b) front (drop n bytes)
                ∙ ap (◌++◌ (contents b)) (take-append-drop n bytes),
          )
    ]

abbrev pub read_bytes : Readv → List ℕ
read_bytes (failed errno) = []
read_bytes (got bytes) = bytes

Readv-cases :
    (r : Readv) → ((errno : ℕ) × (r ≡ failed errno)) ⊎ ((bytes : List ℕ) × (r ≡ got bytes))
Readv-cases (failed errno) = inl (errno, refl)
Readv-cases (got bytes) = inr (bytes, refl)

-- ReadFd adds what readv has read, when it fits the buffer and when it does not, and nothing when readv
-- fails, and it leaves a well-formed buffer: if the buffer was one, and twice its capacity and what is
-- read stay within a size_t.
pub read_fd-contents :
    (fresh : ℕ → List ℕ)
    → ((n : ℕ) → length (fresh n) ≡ n)
    → (readv : ℕ → Readv) (b : Buffer) → IsValid b
    → b.capacity * 2 + length (read_bytes (readv (read_room b))) + 8 < 2 ^ 64
    → let (n, saved, b') = read_fd fresh readv b in
      IsValid b' × (contents b' ≡ contents b ++ read_bytes (readv (read_room b)))
unfolding read_fd
read_fd-contents fresh sized readv b v small = elim (Readv-cases (readv (read_room b))) [
  | inl (errno, e) ↦ rw (e, read_fd) (v, sym (append-nil (contents b)))
  | inr (bytes, e) ↦
      let fits : b.capacity * 2 + length bytes + 8 < 2 ^ 64 =
        subst (λ r. b.capacity * 2 + length (read_bytes r) + 8 < 2 ^ 64) e small in
      rw (e, read_fd) (store_read-contents fresh sized bytes b v fits)
]
