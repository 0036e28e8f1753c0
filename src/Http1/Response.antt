-- ===== src/Http1/Response.antt =====
-- include/proxy/protocol/HttpResponseContext.h and the first half of
-- src/protocol/HttpResponseContext.cpp: the state of the response parser, and the header block.
-- std::stoi and std::stoll are parameters: the number at the front of a text, or `none` where they
-- throw.
pub mod Chunked
pub mod Feed
mod Tests
use linux_highperf_proxy.Base.{
  ℕ, zero, suc, ◌+◌, ◌≡◌, List, [], ◌∷◌, Option, none, some, Bool, true, false, not, ◌&&◌, ◌||◌,
  ltb, ◌==◌, if◌then◌else◌, length, take, drop,
}
use linux_highperf_proxy.Base.Bytes.{codes, bytes_eq}
use linux_highperf_proxy.Base.Int.{ℤ, pos, negsuc, equals}
use linux_highperf_proxy.Http1.Context.{split_at, split_crlf, to_lower, contains}

pub data ParseState : Type 0 where
  k_expect_status_line : ParseState
  k_expect_headers : ParseState
  k_expect_body : ParseState
  k_got_all : ParseState
  k_error : ParseState

-- headers_ is a std::map: its entries in the order of their keys.
pub record HttpResponseContext : Type 0 where
  pub state : ParseState
  pub header_buf : List ℕ
  pub http_major : ℤ
  pub http_minor : ℤ
  pub status_code : ℤ
  pub headers : List (List ℕ × List ℕ)
  pub chunked : Bool
  pub content_length : ℕ
  pub body_remaining : ℕ
  pub keep_alive : Bool
  pub needs_close_to_finish : Bool
  pub expecting_chunk_size : Bool
  pub chunk_line_buf : List ℕ
  pub chunk_remaining : ℕ
  pub chunk_crlf_remaining : ℕ
  pub trailer : Bool
  pub trailer_buf : List ℕ

unfoldable pub reset : HttpResponseContext
reset = record {
  state = k_expect_status_line;
  header_buf = [];
  http_major = pos 1;
  http_minor = pos 1;
  status_code = pos 0;
  headers = [];
  chunked = false;
  content_length = 0;
  body_remaining = 0;
  keep_alive = false;
  needs_close_to_finish = false;
  expecting_chunk_size = true;
  chunk_line_buf = [];
  chunk_remaining = 0;
  chunk_crlf_remaining = 0;
  trailer = false;
  trailer_buf = [];
}

unfoldable pub i_equals : List ℕ → List ℕ → Bool
i_equals a b = bytes_eq (to_lower a) (to_lower b)

unfoldable pub header_contains_token_ci : List ℕ → List ℕ → Bool
header_contains_token_ci v token = contains (to_lower token) (to_lower v)

-- Bytes go from the front, and from the back, as long as the test holds of them.
unfoldable pub strip_front : (ℕ → Bool) → List ℕ → List ℕ
strip_front test [] = []
strip_front test (c ∷ cs) = let rest = strip_front test cs in if test c then rest else c ∷ cs

unfoldable pub cons_unless : Bool → ℕ → List ℕ → List ℕ
cons_unless blank c [] = if blank then [] else c ∷ []
cons_unless blank c (d ∷ ds) = c ∷ d ∷ ds

unfoldable pub strip_back : (ℕ → Bool) → List ℕ → List ℕ
strip_back test [] = []
strip_back test (c ∷ cs) = cons_unless (test c) c (strip_back test cs)

-- `operator<` of std::string.
unfoldable pub bytes_lt : List ℕ → List ℕ → Bool
bytes_lt [] [] = false
bytes_lt [] (y ∷ ys) = true
bytes_lt (x ∷ xs) [] = false
bytes_lt (x ∷ xs) (y ∷ ys) = let rest = bytes_lt xs ys in if x == y then rest else ltb x y

-- headers_[key] = value
unfoldable pub put_ordered : List ℕ → List ℕ → List (List ℕ × List ℕ) → List (List ℕ × List ℕ)
put_ordered key value [] = (key, value) ∷ []
put_ordered key value ((k, v) ∷ m) =
    let rest = put_ordered key value m in
    if bytes_eq k key
    then (key, value) ∷ m
    else if bytes_lt key k
    then (key, value) ∷ (k, v) ∷ m
    else (k, v) ∷ rest

abbrev pub is_blank : ℕ → Bool
is_blank c = (c == 32) || (c == 9)

-- The lines up to an empty one or the end; a line without a colon is passed over. A round reads two
-- bytes at least, so as much fuel as bytes is enough.
unfoldable pub header_lines : ℕ → List ℕ → List (List ℕ × List ℕ) → List (List ℕ × List ℕ)
header_lines zero rest hs = hs
header_lines (suc fuel) rest hs = elim (split_crlf rest) [
  | none ↦ hs
  | some ([], more) ↦ hs
  | some (c ∷ cs, more) ↦ header_lines fuel more (elim (split_at 58 (c ∷ cs)) [
    | none ↦ hs
    | some (key, after) ↦ put_ordered key (strip_back is_blank (strip_front is_blank after)) hs
  ])
]

-- The value of the last header with that name, whatever the case of its letters, or "". The names
-- asked for differ from one another in any case, so three walks are the one walk of the source.
unfoldable pub last_value : List ℕ → List (List ℕ × List ℕ) → List ℕ → List ℕ
last_value name [] found = found
last_value name ((k, v) ∷ m) found = last_value name m (if i_equals k name then v else found)

unfoldable pub failed : HttpResponseContext → Bool × HttpResponseContext
failed c = (false, record c { state = k_error })

module _ (stoi : List ℕ → Option ℤ) (stoll : List ℕ → Option ℤ) where
  -- The status behind the version.
  unfoldable pub parse_status : List ℕ → HttpResponseContext → Bool × HttpResponseContext
  parse_status after c = elim (split_at 32 after) [
    | none ↦ failed c
    | some (code, reason) ↦ elim (stoi code) [
      | none ↦ failed c
      | some n ↦ (true, record c { status_code = n })
    ]
  ]

  unfoldable pub parse_version : List ℕ → List ℕ → HttpResponseContext → Bool × HttpResponseContext
  parse_version ver after c = elim (split_at 46 ver) [
    | none ↦ failed c
    | some (a, b) ↦ elim (stoi a) [
      | none ↦ failed c
      | some major ↦ elim (stoi b) [
        | none ↦ failed (record c { http_major = major })
        | some minor ↦ parse_status after (record c { http_major = major; http_minor = minor })
      ]
    ]
  ]

  unfoldable pub parse_status_line : List ℕ → HttpResponseContext → Bool × HttpResponseContext
  parse_status_line line c =
      if bytes_eq (take 5 line) (codes "HTTP/")
      then (elim (split_at 32 line) [
        | none ↦ failed c
        | some (before, after) ↦ parse_version (drop 5 before) after c
      ])
      else failed c

  -- contentLength_: a text that is no number, or a negative one, counts as 0.
  unfoldable pub length_of : List ℕ → ℕ
  length_of cl =
      if bytes_eq cl []
      then 0
      else (elim (stoll cl) [ none ↦ 0 | some (pos n) ↦ n | some (negsuc n) ↦ 0 ])

  unfoldable pub keeps_alive : ℤ → ℤ → List ℕ → Bool
  keeps_alive major minor conn =
      if equals 1 major && equals 0 minor
      then header_contains_token_ci conn (codes "keep-alive")
      else not (header_contains_token_ci conn (codes "close"))

  -- How the body is delimited, and whether the connection can be used again.
  unfoldable pub set_framing : HttpResponseContext → HttpResponseContext
  set_framing c =
      let te = last_value (codes "Transfer-Encoding") c.headers [] in
      let cl = last_value (codes "Content-Length") c.headers [] in
      let conn = last_value (codes "Connection") c.headers [] in
      let is_chunked = not (bytes_eq te []) && header_contains_token_ci te (codes "chunked") in
      let c' = record c {
        chunked = is_chunked;
        content_length = length_of cl;
        keep_alive = keeps_alive c.http_major c.http_minor conn;
        state = k_expect_body;
      } in
      if is_chunked
      then (record c' {
        expecting_chunk_size = true;
        chunk_line_buf = [];
        chunk_remaining = 0;
        chunk_crlf_remaining = 0;
        trailer = false;
        trailer_buf = [];
        needs_close_to_finish = false;
      })
      else if bytes_eq cl []
      then (record c' { needs_close_to_finish = true; keep_alive = false })
      else (record c' { body_remaining = length_of cl; needs_close_to_finish = false })

  unfoldable pub parse_header_block : List ℕ → HttpResponseContext → Bool × HttpResponseContext
  parse_header_block block c =
      let cleared = record c { headers = [] } in
      elim (split_crlf block) [
        | none ↦ failed cleared
        | some (line, rest) ↦
            let (good, c') = parse_status_line line cleared in
            if good
            then (true, set_framing (record c' { headers = header_lines (length rest) rest [] }))
            else (false, c')
      ]
