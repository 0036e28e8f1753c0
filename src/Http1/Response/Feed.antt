-- ===== src/Http1/Response/Feed.antt =====
-- src/protocol/HttpResponseContext.cpp, consumeBody and feed: the bytes of a read are consumed by the
-- header block and the body.
pub mod Returns
pub mod Splits
pub mod Waits
use linux_highperf_proxy.Base.{
  ℕ, zero, suc, ◌+◌, ◌-◌, List, [], ◌∷◌, ◌++◌, Option, none, some, Bool, true, false, ◌==◌,
  if◌then◌else◌, length, take, drop, min,
}
use linux_highperf_proxy.Base.Bytes.{bytes_eq}
use linux_highperf_proxy.Base.Int.{ℤ}
use linux_highperf_proxy.Http1.Response.{
  HttpResponseContext, ParseState, k_expect_status_line, k_expect_headers, k_expect_body, k_got_all,
  k_error, parse_header_block,
}
use linux_highperf_proxy.Http1.Response.Chunked.{consume_chunked}

-- How many bytes there are up to the end of the first CR LF CR LF.
unfoldable pub header_end : List ℕ → Option ℕ
header_end [] = none
header_end (b ∷ bs) =
    let more = header_end bs in
    if bytes_eq (take 4 (b ∷ bs)) (13 ∷ 10 ∷ 13 ∷ 10 ∷ [])
    then some 4
    else (elim more [ none ↦ none | some n ↦ some (suc n) ])

unfoldable pub got_all : ParseState → Bool
got_all k_got_all = true
got_all _ = false

module _ (stoi : List ℕ → Option ℤ) (stoll : List ℕ → Option ℤ) (strtoull : List ℕ → Option ℕ) where
  -- What consumeBody returns, or `none` where the fuel ran out; the context and the bytes left.
  unfoldable pub consume_body :
      HttpResponseContext → List ℕ → Option Bool × HttpResponseContext × List ℕ
  consume_body c p =
      let n = min c.body_remaining (length p) in
      let c' = record c { body_remaining = c.body_remaining - n } in
      if c.chunked
      then consume_chunked strtoull c p
      else if c.needs_close_to_finish
      then (some true, c, [])
      else (
        some true,
        if c.body_remaining - n == 0 then record c' { state = k_got_all } else c',
        drop n p,
      )

  -- The body bytes that arrived with the header block; those behind the response are ignored.
  unfoldable pub feed_rest : HttpResponseContext → List ℕ → Option Bool × HttpResponseContext
  feed_rest c [] = (some (got_all c.state), c)
  feed_rest c (b ∷ bs) =
      let (good, c', rest) = consume_body c (b ∷ bs) in
      elim good [
        | none ↦ (none, c')
        | some false ↦ (some false, c')
        | some true ↦ (some (got_all c'.state), c')
      ]

  unfoldable pub feed_header : HttpResponseContext → List ℕ → Option Bool × HttpResponseContext
  feed_header c p =
      let buf = c.header_buf ++ p in
      elim (header_end buf) [
        | none ↦ (some false, record c { header_buf = buf })
        | some n ↦
            let (good, c') =
              parse_header_block stoi stoll (take n buf) (record c { header_buf = [] }) in
            if good then feed_rest c' (drop n buf) else (some false, c')
      ]

  -- The loop of feed, by its state; `none` where the fuel ran out.
  unfoldable pub feed_loop : ℕ → HttpResponseContext → List ℕ → Option Bool × HttpResponseContext
  feed_loop zero c p = (none, c)
  feed_loop (suc fuel) c [] = (some (got_all c.state), c)
  feed_loop (suc fuel) c (b ∷ bs) = elim c.state [
    | k_error ↦ (some false, c)
    | k_got_all ↦ (some true, c)
    | k_expect_status_line ↦ feed_header c (b ∷ bs)
    | k_expect_headers ↦ feed_header c (b ∷ bs)
    | k_expect_body ↦
        let (good, c', rest) = consume_body c (b ∷ bs) in
        elim good [
          | none ↦ (none, c')
          | some false ↦ (some false, c')
          | some true ↦
              if c'.needs_close_to_finish
              then (some (got_all c'.state), c')
              else feed_loop fuel c' rest
        ]
  ]

  -- After one round of the body the response is complete or the bytes are used up.
  unfoldable pub feed : HttpResponseContext → List ℕ → Option Bool × HttpResponseContext
  feed c p = feed_loop 2 c p
