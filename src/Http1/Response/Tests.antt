-- ===== src/Http1/Response/Tests.antt =====
-- The response parser at concrete inputs; the theorems at inputs that meet their hypotheses.
use linux_highperf_proxy.Base.{
  ℕ, ◌+◌, ◌-◌, ◌*◌, ◌≡◌, refl, inl, List, [], ◌∷◌, ◌++◌, Option, none, some, Bool, true, false,
  ◌&&◌, leb, if◌then◌else◌, length,
}
use linux_highperf_proxy.Base.Bytes.{codes}
use linux_highperf_proxy.Base.Int.{ℤ, pos}
use linux_highperf_proxy.Http1.Context.{split_at, split_crlf, to_lower, contains}
use linux_highperf_proxy.Http1.Response.{
  k_expect_status_line, k_expect_body, reset, i_equals, header_contains_token_ci, strip_front,
  strip_back, cons_unless, bytes_lt, put_ordered, header_lines, last_value, failed, parse_status,
  parse_version, parse_status_line, length_of, keeps_alive, set_framing, parse_header_block,
}
use linux_highperf_proxy.Http1.Response.Feed.{
  header_end, got_all, consume_body, feed_rest, feed_header, feed_loop, feed,
}
use linux_highperf_proxy.Http1.Response.Feed.Returns.{IsLive, feed_returns}
use linux_highperf_proxy.Http1.Response.Feed.Splits.{feed-append}
use linux_highperf_proxy.Http1.Response.Feed.Waits.{bodyless_waits}

-- A stand-in for std::stoi and std::stoll: the digits at the front.
abbrev is_digit : ℕ → Bool
is_digit c = leb 48 c && leb c 57

abbrev digits_at_front : ℕ → List ℕ → ℕ
digits_at_front n [] = n
digits_at_front n (c ∷ cs) =
    let more = digits_at_front (n * 10 + (c - 48)) cs in if is_digit c then more else n

abbrev front_number : List ℕ → Option ℕ
front_number [] = none
front_number (c ∷ cs) = if is_digit c then some (digits_at_front 0 (c ∷ cs)) else none

abbrev front_int : List ℕ → Option ℤ
front_int (c ∷ cs) = if is_digit c then some (pos (digits_at_front 0 (c ∷ cs))) else none
front_int [] = none

abbrev first_part : List ℕ
first_part = codes "HTTP/1.1 200 OK" ++ (13 ∷ 10 ∷ codes "Content-Le")

abbrev second_part : List ℕ
second_part = codes "ngth: 3" ++ (13 ∷ 10 ∷ 13 ∷ 10 ∷ codes "abc")

abbrev no_content : List ℕ
no_content =
    codes "HTTP/1.1 200 OK" ++ (13 ∷ 10 ∷ codes "Content-Length: 0" ++ (13 ∷ 10 ∷ 13 ∷ 10 ∷ []))

reset-plain : reset.chunked ≡ false
unfolding reset
reset-plain = refl

response_plain :
    (feed front_int front_int front_number reset (first_part ++ second_part)).1.chunked ≡ false
unfolding feed feed_loop feed_header feed_rest header_end consume_body parse_header_block
    set_framing keeps_alive length_of parse_status_line parse_version parse_status last_value
    header_lines put_ordered bytes_lt strip_front strip_back cons_unless i_equals
    header_contains_token_ci reset split_at split_crlf to_lower contains got_all failed
response_plain = refl

response_complete :
    (feed front_int front_int front_number reset (first_part ++ second_part)).0 ≡ some true
unfolding feed feed_loop feed_header feed_rest header_end consume_body parse_header_block
    set_framing keeps_alive length_of parse_status_line parse_version parse_status last_value
    header_lines put_ordered bytes_lt strip_front strip_back cons_unless i_equals
    header_contains_token_ci reset split_at split_crlf to_lower contains got_all failed
response_complete = refl

feed-append_example :
    feed front_int front_int front_number
      (feed front_int front_int front_number reset first_part).1
      second_part
    ≡ feed front_int front_int front_number reset (first_part ++ second_part)
feed-append_example =
    feed-append front_int front_int front_number reset first_part second_part reset-plain
      response_plain

reset-IsLive : IsLive reset
unfolding reset
reset-IsLive e = cc

feed_returns_example :
    let r = feed front_int front_int front_number reset first_part in
    (r.0 ≡ some (got_all r.1.state)) × IsLive r.1
feed_returns_example = feed_returns front_int front_int front_number reset first_part reset-IsLive

reset-start : reset.state ≡ k_expect_status_line
unfolding reset
reset-start = refl

no_content_end :
    header_end (reset.header_buf ++ no_content) ≡ some (length (reset.header_buf ++ no_content))
unfolding header_end reset
no_content_end = refl

no_content_parsed :
    (parse_header_block front_int front_int
      (reset.header_buf ++ no_content)
      (record reset { header_buf = [] })).0
    ≡ true
unfolding parse_header_block set_framing keeps_alive length_of parse_status_line parse_version
    parse_status last_value header_lines put_ordered bytes_lt strip_front strip_back cons_unless
    i_equals header_contains_token_ci reset split_at split_crlf to_lower contains failed
no_content_parsed = refl

bodyless_waits_example :
    let r = feed front_int front_int front_number reset no_content in
    (r.0 ≡ some false) × (r.1.state ≡ k_expect_body)
bodyless_waits_example =
    bodyless_waits front_int front_int front_number reset 72
      (codes "TTP/1.1 200 OK" ++ (13 ∷ 10 ∷ codes "Content-Length: 0" ++ (13 ∷ 10 ∷ 13 ∷ 10 ∷ [])))
      (inl reset-start) no_content_end no_content_parsed
