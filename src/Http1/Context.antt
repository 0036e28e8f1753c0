-- ===== src/Http1/Context.antt =====
-- src/protocol/HttpContext.cpp: the incremental parser of requests. Its Buffer is the list of the
-- bytes that it holds: Peek() is the list, Retrieve(n) drops from it. `strtoll base s` is the number
-- at the front of `s`, or `none` if there is none or it is negative.
pub mod Lines
pub mod Rounds
use linux_highperf_proxy.Base.{
  ℕ, zero, suc, ◌+◌, ◌-◌, List, [], ◌∷◌, ◌++◌, Option, none, some, Bool, true, false, not, ◌&&◌,
  ◌||◌, ltb, leb, ◌==◌, if◌then◌else◌, length, take, drop, min,
}
use linux_highperf_proxy.Base.Bytes.{codes, bytes_eq}
use linux_highperf_proxy.Http1.Request.{
  HttpRequest, Version, k_http10, k_http11, new_request, method_of, is_valid_method, trim_front,
  trim_back, add_header, get_header, append_body,
}

pub data ParseState : Type 0 where
  k_expect_request_line : ParseState
  k_expect_headers : ParseState
  k_expect_body : ParseState
  k_got_all : ParseState

pub record HttpContext : Type 0 where
  pub state : ParseState
  pub request : HttpRequest
  pub chunked : Bool
  pub content_length : ℕ
  pub body_remaining : ℕ
  pub chunk_size : ℕ
  pub expecting_chunk_size : Bool

unfoldable pub reset : HttpContext
reset = record {
  state = k_expect_request_line;
  request = new_request;
  chunked = false;
  content_length = 0;
  body_remaining = 0;
  chunk_size = 0;
  expecting_chunk_size = true;
}

-- std::find of a byte: what stands before it and what behind it.
unfoldable pub split_at : ℕ → List ℕ → Option (List ℕ × List ℕ)
split_at c [] = none
split_at c (b ∷ bs) =
    let more = split_at c bs in
    if b == c
    then some ([], bs)
    else (elim more [ none ↦ none | some (xs, ys) ↦ some (b ∷ xs, ys) ])

-- std::search of CR LF: the line and what follows it.
unfoldable pub split_crlf : List ℕ → Option (List ℕ × List ℕ)
split_crlf [] = none
split_crlf (b ∷ bs) =
    let more = split_crlf bs in
    if bytes_eq (take 2 (b ∷ bs)) (13 ∷ 10 ∷ [])
    then some ([], drop 1 bs)
    else (elim more [ none ↦ none | some (xs, ys) ↦ some (b ∷ xs, ys) ])

-- std::search of CR LF CR LF: what follows it.
unfoldable pub after_blank_line : List ℕ → Option (List ℕ)
after_blank_line [] = none
after_blank_line (b ∷ bs) =
    let more = after_blank_line bs in
    if bytes_eq (take 4 (b ∷ bs)) (13 ∷ 10 ∷ 13 ∷ 10 ∷ []) then some (drop 3 bs) else more

unfoldable pub to_lower : List ℕ → List ℕ
to_lower [] = []
to_lower (c ∷ cs) = (if leb 65 c && leb c 90 then c + 32 else c) ∷ to_lower cs

-- s.find(word) != npos
unfoldable pub contains : List ℕ → List ℕ → Bool
contains word [] = bytes_eq word []
contains word (c ∷ cs) = bytes_eq (take (length word) (c ∷ cs)) word || contains word cs

-- The query keeps its question mark.
unfoldable pub set_target : List ℕ → HttpRequest → HttpRequest
set_target target r = elim (split_at 63 target) [
  | none ↦ record r { path = target }
  | some (before, after) ↦ record r { path = before; query = 63 ∷ after }
]

unfoldable pub set_version : List ℕ → HttpRequest → Bool × HttpRequest
set_version v r =
    if bytes_eq v (codes "HTTP/1.1")
    then (true, record r { version = k_http11 })
    else if bytes_eq v (codes "HTTP/1.0")
    then (true, record r { version = k_http10 })
    else (false, r)

-- What was set stays set where a later part is wrong.
unfoldable pub process_request_line : List ℕ → HttpRequest → Bool × HttpRequest
process_request_line line r = elim (split_at 32 line) [
  | none ↦ (false, r)
  | some (m, rest) ↦
      let named = record r { method = method_of m } in
      if is_valid_method (method_of m)
      then (elim (split_at 32 rest) [
        | none ↦ (false, named)
        | some (target, v) ↦ set_version v (set_target target named)
      ])
      else (false, named)
]

-- A round of the loop: whether it goes on, and else what parseRequest returns; the context and the
-- bytes that are left.
pub data Next : Type 0 where
  again : Next
  done : Bool → Next

abbrev pub Round : Type 0
Round = Next × HttpContext × List ℕ

unfoldable pub request_line_round : HttpContext → List ℕ → Round
request_line_round c input = elim (split_crlf input) [
  | none ↦ (done true, c, input)
  | some (line, rest) ↦
      let parsed = process_request_line line c.request in
      let c' = record c { request = parsed.1 } in
      if parsed.0
      then (again, record c' { state = k_expect_headers }, rest)
      else (done false, c', input)
]

module _ (strtoll : ℕ → List ℕ → Option ℕ) where
  -- The end of the headers: is there a body, and how is it delimited?
  unfoldable pub end_headers : HttpContext → List ℕ → Round
  end_headers c rest =
      let c' = record c {
        chunked = false;
        content_length = 0;
        body_remaining = 0;
        chunk_size = 0;
        expecting_chunk_size = true;
      } in
      let te = get_header (codes "Transfer-Encoding") c.request in
      let cl = get_header (codes "Content-Length") c.request in
      if contains (codes "chunked") (to_lower te)
      then (again, record c' { chunked = true; state = k_expect_body }, rest)
      else if bytes_eq cl []
      then (done true, record c' { state = k_got_all }, rest)
      else (elim (strtoll 10 cl) [
        | none ↦ (done false, c', rest)
        | some zero ↦ (done true, record c' { state = k_got_all }, rest)
        | some (suc n) ↦ (
          again,
          record c' { content_length = suc n; body_remaining = suc n; state = k_expect_body },
          rest,
        )
      ])

  unfoldable pub headers_round : HttpContext → List ℕ → Round
  headers_round c input = elim (split_crlf input) [
    | none ↦ (done true, c, input)
    | some (line, rest) ↦ elim (split_at 58 line) [
      | none ↦ end_headers c rest
      | some (field, after) ↦ (again, record c { request = add_header field after c.request }, rest)
    ]
  ]

  -- The data of a chunk, with the CR LF behind it.
  unfoldable pub chunk_data : HttpContext → List ℕ → Round
  chunk_data c input =
      let rest = drop c.chunk_size input in
      let c' = record c { request = append_body (take c.chunk_size input) c.request } in
      if ltb (length input) (c.chunk_size + 2)
      then (done true, c, input)
      else if bytes_eq (take 2 rest) (13 ∷ 10 ∷ [])
      then (again, record c' { expecting_chunk_size = true }, drop 2 rest)
      else (done false, c', rest)

  -- The last chunk: the trailers up to an empty line.
  unfoldable pub last_chunk : HttpContext → List ℕ → Round
  last_chunk c input =
      if bytes_eq (take 2 input) (13 ∷ 10 ∷ [])
      then (done true, record c { state = k_got_all }, drop 2 input)
      else (elim (after_blank_line input) [
        | none ↦ (done true, c, input)
        | some rest ↦ (done true, record c { state = k_got_all }, rest)
      ])

  -- The size line without its extensions and blanks.
  unfoldable pub size_text : List ℕ → List ℕ
  size_text line =
      trim_front
        (trim_back (elim (split_at 59 line) [ none ↦ line | some (before, after) ↦ before ]))

  unfoldable pub chunk_size_line : HttpContext → List ℕ → Round
  chunk_size_line c input = elim (split_crlf input) [
    | none ↦ (done true, c, input)
    | some (line, rest) ↦
        if bytes_eq (size_text line) []
        then (done false, c, rest)
        else (elim (strtoll 16 (size_text line)) [
          | none ↦ (done false, c, rest)
          | some zero ↦ last_chunk (record c { chunk_size = 0; expecting_chunk_size = false }) rest
          | some (suc n) ↦
              chunk_data (record c { chunk_size = suc n; expecting_chunk_size = false }) rest
        ])
  ]

  -- A body of known length: what is there is taken.
  unfoldable pub length_body : HttpContext → List ℕ → Round
  length_body c input =
      let n = min c.body_remaining (length input) in
      let c' = record c {
        request = append_body (take n input) c.request;
        body_remaining = c.body_remaining - n;
      } in
      if c.body_remaining - n == 0
      then (done true, record c' { state = k_got_all }, drop n input)
      else (done true, c', drop n input)

  unfoldable pub body_round : HttpContext → List ℕ → Round
  body_round c input =
      if c.chunked
      then if c.expecting_chunk_size then chunk_size_line c input else chunk_data c input
      else length_body c input

  -- In the last state no branch of the loop applies, and it goes round with nothing changed.
  unfoldable pub round : ParseState → HttpContext → List ℕ → Round
  round k_expect_request_line c input = request_line_round c input
  round k_expect_headers c input = headers_round c input
  round k_expect_body c input = body_round c input
  round k_got_all c input = (again, c, input)

  -- What parseRequest returns, or `none` where the fuel ran out; the context and the bytes left.
  unfoldable pub parse_loop : ℕ → HttpContext → List ℕ → Option Bool × HttpContext × List ℕ
  parse_loop zero c input = (none, c, input)
  parse_loop (suc fuel) c input =
      let (next, c', rest) = round c.state c input in
      elim next [ again ↦ parse_loop fuel c' rest | done result ↦ (some result, c', rest) ]

  -- A round that goes on has read a byte, so more fuel than bytes is enough.
  unfoldable pub parse_request : HttpContext → List ℕ → Option Bool × HttpContext × List ℕ
  parse_request c input = parse_loop (suc (length input)) c input
