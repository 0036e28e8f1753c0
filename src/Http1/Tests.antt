-- ===== src/Http1/Tests.antt =====
-- The request parser at concrete inputs; the theorems at inputs that meet their hypotheses.
use linux_highperf_proxy.Base.{ℕ, ◌≡◌, ◌≢◌, refl, List, [], ◌∷◌, Option, none, some, true, false}
use linux_highperf_proxy.Base.Bytes.{codes}
use linux_highperf_proxy.Http1.Request.{new_request, k_put, is_valid_method}
use linux_highperf_proxy.Http1.Context.{
  HttpContext, k_expect_body, k_got_all, reset, split_at, parse_request,
}
use linux_highperf_proxy.Http1.Context.Rounds.{parse_request_returns}
use linux_highperf_proxy.Http1.Context.Lines.{last_chunk_cut}

-- A stand-in that reads no number at all.
abbrev no_number : ℕ → List ℕ → Option ℕ
no_number base s = none

reset-ne_complete : reset.state ≢ k_got_all
unfolding reset
reset-ne_complete e = cc

parse_request_returns_example : (parse_request no_number reset (codes "GET / HTTP/1.1")).0 ≢ none
parse_request_returns_example =
    parse_request_returns no_number reset (codes "GET / HTTP/1.1") reset-ne_complete

put_valid : is_valid_method k_put ≡ true
unfolding is_valid_method
put_valid = refl

target_plain : split_at 32 (codes "/a?b=c") ≡ none
unfolding split_at
target_plain = refl

-- A context behind the size line of the last chunk.
abbrev behind_zero : HttpContext
behind_zero = record {
  state = k_expect_body;
  request = new_request;
  chunked = true;
  content_length = 0;
  body_remaining = 0;
  chunk_size = 0;
  expecting_chunk_size = false;
}

last_chunk_cut_example :
    ((parse_request no_number behind_zero (13 ∷ 10 ∷ [])).0 ≡ some true)
    × ((parse_request no_number behind_zero (13 ∷ 10 ∷ [])).1.state ≡ k_expect_body)
    × ((parse_request no_number behind_zero (13 ∷ 10 ∷ [])).2 ≡ [])
last_chunk_cut_example = last_chunk_cut no_number behind_zero refl refl refl refl
