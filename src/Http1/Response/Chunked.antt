-- ===== src/Http1/Response/Chunked.antt =====
-- src/protocol/HttpResponseContext.cpp, consumeChunked. The bytes given and not yet consumed are a
-- list. `strtoull s` is the hexadecimal number at the front of `s`, or `none` if there is none.
pub mod Rounds
use linux_highperf_proxy.Base.{
  ℕ, zero, suc, ◌+◌, ◌-◌, List, [], ◌∷◌, ◌++◌, Option, none, some, Bool, true, false, not, ◌&&◌,
  ◌||◌, ltb, leb, ◌==◌, if◌then◌else◌, length, take, drop, get_elem?, min,
}
use linux_highperf_proxy.Base.Bytes.{bytes_eq}
use linux_highperf_proxy.Http1.Context.{Next, again, done, split_at, split_crlf, after_blank_line}
use linux_highperf_proxy.Http1.Response.{
  HttpResponseContext, k_got_all, k_error, strip_front, strip_back,
}

abbrev pub Round : Type 0
Round = Next × HttpResponseContext × List ℕ

unfoldable pub is_ws : ℕ → Bool
is_ws c = (c == 32) || ((c == 9) || ((c == 13) || (c == 10)))

-- Is there a CR LF CR LF in it?
unfoldable pub has_blank_line : List ℕ → Bool
has_blank_line s = elim (after_blank_line s) [ none ↦ false | some rest ↦ true ]

-- The last 8192 bytes.
unfoldable pub keep_last : List ℕ → List ℕ
keep_last s = drop (length s - 8192) s

-- Behind the last chunk: the trailers, up to CR LF CR LF. Where the buffer holds that, the bytes
-- given are not consumed.
unfoldable pub trailer_round : HttpResponseContext → List ℕ → Round
trailer_round c p =
    let buf = c.trailer_buf ++ take 8192 p in
    elim (after_blank_line p) [
      | some rest ↦ (done true, record c { state = k_got_all }, rest)
      | none ↦
          if leb 4 (length buf)
          then (if has_blank_line buf
              then (done true, record c { state = k_got_all; trailer_buf = buf }, p)
              else (done true, record c { trailer_buf = keep_last buf }, []))
          else (done true, record c { trailer_buf = buf }, [])
    ]

-- The size line without its extensions and the blanks around it.
unfoldable pub size_text : List ℕ → List ℕ
size_text line =
    strip_back is_ws
      (strip_front is_ws (elim (split_at 59 line) [ none ↦ line | some (before, after) ↦ before ]))

unfoldable pub data_round : HttpResponseContext → List ℕ → Round
data_round c p =
    let n = min c.chunk_remaining (length p) in
    let c' = record c { chunk_remaining = c.chunk_remaining - n } in
    (
      again,
      if c.chunk_remaining - n == 0 then record c' { chunk_crlf_remaining = 2 } else c',
      drop n p,
    )

-- Is the byte at that place there and another one?
unfoldable pub differs : List ℕ → ℕ → ℕ → Bool
differs p i b = elim (get_elem? p i) [ none ↦ false | some x ↦ not (x == b) ]

unfoldable pub crlf_round : HttpResponseContext → List ℕ → Round
crlf_round c p =
    let n = min c.chunk_crlf_remaining (length p) in
    let c' = record c { chunk_crlf_remaining = c.chunk_crlf_remaining - n } in
    if ((c.chunk_crlf_remaining == 2) && differs p 0 13)
      || (((n == 2) && differs p 1 10) || ((c.chunk_crlf_remaining == 1) && differs p 0 10))
    then (done false, record c { state = k_error }, p)
    else (
      again,
      if c.chunk_crlf_remaining - n == 0 then record c' { expecting_chunk_size = true } else c',
      drop n p,
    )

module _ (strtoull : List ℕ → Option ℕ) where
  unfoldable pub size_round : HttpResponseContext → List ℕ → Round
  size_round c p = elim (split_crlf p) [
    | none ↦ (done true, record c { chunk_line_buf = c.chunk_line_buf ++ p }, [])
    | some (before, rest) ↦
        let line = size_text (c.chunk_line_buf ++ before) in
        let c' = record c { chunk_line_buf = [] } in
        if bytes_eq line []
        then (done false, record c' { state = k_error }, rest)
        else (elim (strtoull line) [
          | none ↦ (done false, record c' { state = k_error }, rest)
          | some zero ↦ (
            again,
            record c' { chunk_remaining = 0; expecting_chunk_size = false; trailer = true },
            rest,
          )
          | some (suc n) ↦
              (again, record c' { chunk_remaining = suc n; expecting_chunk_size = false }, rest)
        ])
  ]

  -- Where no branch of the loop applies it goes round with nothing changed.
  unfoldable pub chunked_round : HttpResponseContext → List ℕ → Round
  chunked_round c p =
      if c.trailer
      then trailer_round c p
      else if c.expecting_chunk_size
      then size_round c p
      else if ltb 0 c.chunk_remaining
      then data_round c p
      else if ltb 0 c.chunk_crlf_remaining
      then crlf_round c p
      else (again, c, p)

  -- What consumeChunked returns, or `none` where the fuel ran out; the context and the bytes left.
  unfoldable pub consume_loop :
      ℕ → HttpResponseContext → List ℕ → Option Bool × HttpResponseContext × List ℕ
  consume_loop zero c p = (none, c, p)
  consume_loop (suc fuel) c [] = (some true, c, [])
  consume_loop (suc fuel) c (b ∷ bs) =
      let (next, c', rest) = chunked_round c (b ∷ bs) in
      elim next [ again ↦ consume_loop fuel c' rest | done result ↦ (some result, c', rest) ]

  -- A round that goes on has consumed a byte, so more fuel than bytes is enough.
  unfoldable pub consume_chunked :
      HttpResponseContext → List ℕ → Option Bool × HttpResponseContext × List ℕ
  consume_chunked c p = consume_loop (suc (length p)) c p
