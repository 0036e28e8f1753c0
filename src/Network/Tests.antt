-- ===== src/Network/Tests.antt =====
-- Buffer at concrete inputs; the theorems at inputs that meet their hypotheses.
use linux_highperf_proxy.Base.{
  ℕ, ◌≤◌, ◌≡◌, refl, List, ◌++◌, length, take, replicate, arith, zero, suc, ap, ◌+◌, ◌*◌, ◌^◌, ◌<◌,
}
use linux_highperf_proxy.Base.Bytes.{codes}
use linux_highperf_proxy.Network.Buffer.{
  Buffer, contents, peek, append, Readv, got, read_room, read_fd,
}
use linux_highperf_proxy.Network.Buffer.Contents.{
  IsValid, read_bytes, append-contents, read_fd-contents,
}

-- Memory that is all zeros when it is allocated.
abbrev zeros : ℕ → List ℕ
zeros n = replicate n 0

length-zeros : (n : ℕ) → length (zeros n) ≡ n
length-zeros zero = refl
length-zeros (suc n) = ap suc (length-zeros n)

-- Eight bytes in front, then "ab", and room for two more.
abbrev small_buffer : Buffer
small_buffer = record {
  mem = replicate 8 0 ++ (codes "ab" ++ replicate 2 0);
  capacity = 12;
  reader_index = 8;
  writer_index = 10;
}

small_buffer-IsValid : IsValid small_buffer
small_buffer-IsValid = record {
  front = omega arith;
  order = omega arith;
  within = omega arith;
  whole = refl;
  word = omega arith;
}

append-contents_example :
    IsValid (append zeros (codes "cde") small_buffer)
    × (contents (append zeros (codes "cde") small_buffer) ≡ contents small_buffer ++ codes "cde")
append-contents_example =
    append-contents zeros length-zeros (codes "cde") small_buffer small_buffer-IsValid (omega arith)

-- Six bytes arrive, if so many fit.
abbrev six : ℕ → Readv
six room = got (take room (codes "cdefgh"))

six_fit :
    small_buffer.capacity * 2 + length (read_bytes (six (read_room small_buffer))) + 8 < 2 ^ 64
unfolding read_room
six_fit = omega arith

read_fd-contents_example :
    let (n, saved, b') = read_fd zeros six small_buffer in
    IsValid b' × (contents b' ≡ contents small_buffer ++ read_bytes (six (read_room small_buffer)))
read_fd-contents_example =
    read_fd-contents zeros length-zeros six small_buffer small_buffer-IsValid six_fit

small_buffer_holds : 1 ≤ length (contents small_buffer)
unfolding peek
small_buffer_holds = omega arith
