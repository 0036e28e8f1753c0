-- ===== src/Network/Buffer.antt =====
-- include/proxy/network/Buffer.h and src/network/Buffer.cpp: the buffer between a socket and a
-- protocol. `fresh n` is what n bytes of memory that was just allocated hold.
pub mod Contents
use linux_highperf_proxy.Base.{
  ℕ, ◌+◌, ◌-◌, ◌*◌, ◌%◌, ◌^◌, List, [], ◌∷◌, ◌++◌, Option, none, some, Bool, ltb, leb,
  if◌then◌else◌, length, take, drop,
}
use linux_highperf_proxy.Base.Bytes.{sub_size}
use linux_highperf_proxy.Base.Int.{ℤ, pos, negsuc}

-- The bytes at buffer_, capacity_ of them, and the two indices.
pub record Buffer : Type 0 where
  pub mem : List ℕ
  pub capacity : ℕ
  pub reader_index : ℕ
  pub writer_index : ℕ

abbrev pub k_cheap_prepend : ℕ
k_cheap_prepend = 8

abbrev pub k_initial_size : ℕ
k_initial_size = 1024

-- std::copy of `src` to the bytes of `mem` from `at` on.
unfoldable pub copy_to : ℕ → List ℕ → List ℕ → List ℕ
copy_to at src mem = take at mem ++ (src ++ drop (at + length src) mem)

abbrev pub readable_bytes : Buffer → ℕ
readable_bytes b = sub_size b.writer_index b.reader_index

abbrev pub writable_bytes : Buffer → ℕ
writable_bytes b = sub_size b.capacity b.writer_index

abbrev pub prependable_bytes : Buffer → ℕ
prependable_bytes b = b.reader_index

-- The bytes from Peek() to BeginWrite().
unfoldable pub peek : ℕ → Buffer → List ℕ
peek len b = take len (drop b.reader_index b.mem)

abbrev pub contents : Buffer → List ℕ
contents b = peek (readable_bytes b) b

unfoldable pub retrieve_all : Buffer → Buffer
retrieve_all b = record b { reader_index = k_cheap_prepend; writer_index = k_cheap_prepend }

unfoldable pub retrieve : ℕ → Buffer → Buffer
retrieve len b =
    if ltb len (readable_bytes b)
    then record b { reader_index = (b.reader_index + len) % 2 ^ 64 }
    else retrieve_all b

unfoldable pub retrieve_as_string : ℕ → Buffer → List ℕ × Buffer
retrieve_as_string len b = (peek len b, retrieve len b)

unfoldable pub retrieve_all_as_string : Buffer → List ℕ × Buffer
retrieve_all_as_string b = retrieve_as_string (readable_bytes b) b

unfoldable pub has_written : ℕ → Buffer → Buffer
has_written len b = record b { writer_index = (b.writer_index + len) % 2 ^ 64 }

-- The buffer that another one was moved to, and what is left of the other.
unfoldable pub move : Buffer → Buffer × Buffer
move other = (other, record { mem = []; capacity = 0; reader_index = 0; writer_index = 0 })

-- The capacity after a resize.
unfoldable pub new_capacity : ℕ → ℕ → ℕ
new_capacity capacity len =
    if ltb (capacity * 2 % 2 ^ 64) ((capacity + len) % 2 ^ 64)
    then (capacity + len + k_cheap_prepend) % 2 ^ 64
    else capacity * 2 % 2 ^ 64

-- What readv answers: an error with its errno, or the bytes that it has put into the memory that it was
-- offered.
pub data Readv : Type 0 where
  failed : ℕ → Readv
  got : List ℕ → Readv

-- How many bytes ReadFd offers: those that are writable, and those of `extrabuf` with iovcnt 2.
unfoldable pub read_room : Buffer → ℕ
read_room b = if ltb (writable_bytes b) 65536 then writable_bytes b + 65536 else writable_bytes b

module _ (fresh : ℕ → List ℕ) where
  -- The constructor.
  unfoldable pub new_buffer : ℕ → Buffer
  new_buffer initial_size =
      let n = (k_cheap_prepend + initial_size) % 2 ^ 64 in
      record {
        mem = fresh n;
        capacity = n;
        reader_index = k_cheap_prepend;
        writer_index = k_cheap_prepend;
      }

  -- The readable bytes are copied to the front: of new memory, or of the old.
  unfoldable pub make_space : ℕ → Buffer → Buffer
  make_space len b =
      let n = new_capacity b.capacity len in
      let readable = readable_bytes b in
      let moved : Buffer = record {
        mem = copy_to k_cheap_prepend (contents b) (fresh n);
        capacity = n;
        reader_index = k_cheap_prepend;
        writer_index = (k_cheap_prepend + readable) % 2 ^ 64;
      } in
      if ltb ((writable_bytes b + prependable_bytes b) % 2 ^ 64) ((len + k_cheap_prepend) % 2 ^ 64)
      then moved
      else record b {
        mem = copy_to k_cheap_prepend (contents b) b.mem;
        reader_index = k_cheap_prepend;
        writer_index = (k_cheap_prepend + readable) % 2 ^ 64;
      }

  unfoldable pub ensure_writable_bytes : ℕ → Buffer → Buffer
  ensure_writable_bytes len b = if ltb (writable_bytes b) len then make_space len b else b

  -- Both overloads of Append.
  unfoldable pub append : List ℕ → Buffer → Buffer
  append src b =
      let roomy = ensure_writable_bytes (length src) b in
      has_written (length src) (record roomy { mem = copy_to roomy.writer_index src roomy.mem })

  -- What was read went first into the writable bytes and then into `extrabuf`.
  unfoldable pub store_read : List ℕ → Buffer → Buffer
  store_read bytes b =
      let writable = writable_bytes b in
      let filled = record b { mem = copy_to b.writer_index (take writable bytes) b.mem } in
      if leb (length bytes) writable
      then record filled { writer_index = (b.writer_index + length bytes) % 2 ^ 64 }
      else append (drop writable bytes) (record filled { writer_index = b.capacity })

  -- The result of readv, what is stored in savedErrno, and the buffer.
  unfoldable pub read_fd : (ℕ → Readv) → Buffer → ℤ × Option ℕ × Buffer
  read_fd readv b = elim (readv (read_room b)) [
    | failed errno ↦ (negsuc 0, some errno, b)
    | got bytes ↦ (pos (length bytes), none, store_read bytes b)
  ]
