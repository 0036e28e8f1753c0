-- ===== src/Http1/Response/Feed/Returns.antt =====
-- HttpResponseContext::feed returns.
use linux_highperf_proxy.Base.{
  ℕ, suc, ◌≡◌, ◌≢◌, refl, List, [], ◌∷◌, ◌++◌, Option, none, some, Option-cases, Bool-cases, Bool,
  true, inl, inr, false, length, drop, drop_all, take, min, arith,
}
use linux_highperf_proxy.Base.Int.{ℤ}
use linux_highperf_proxy.Http1.Context.{split_at, split_crlf}
use linux_highperf_proxy.Http1.Response.{
  HttpResponseContext, k_expect_body, k_got_all, k_error, failed, parse_status, parse_version,
  parse_status_line, header_lines, set_framing, parse_header_block,
}
use linux_highperf_proxy.Http1.Response.Chunked.{consume_chunked}
use linux_highperf_proxy.Http1.Response.Chunked.Rounds.{stalled, consume_loop-Consumed}
use linux_highperf_proxy.Http1.Response.Feed.{
  header_end, got_all, consume_body, feed_rest, feed_header, feed_loop, feed,
}

-- In a chunked body some branch of the loop over the chunks applies.
abbrev pub Moves : HttpResponseContext → Type 0
Moves c = c.chunked ≡ true → stalled c ≡ false

abbrev pub IsLive : HttpResponseContext → Type 0
IsLive c = c.state ≡ k_expect_body → c.chunked ≡ true → stalled c ≡ false

module _ (stoi : List ℕ → Option ℤ) (stoll : List ℕ → Option ℤ) where
  parse_status_failed :
      (after : List ℕ) (c : HttpResponseContext)
      → (parse_status stoi stoll after c).0 ≡ false
      → (parse_status stoi stoll after c).1.state ≡ k_error
  unfolding parse_status failed
  parse_status_failed after c h = elim (Option-cases (split_at 32 after)) [
    | inl n ↦ ground (arith, n, h)
    | inr ((code, reason), e) ↦ elim (Option-cases (stoi code)) [
      | inl n ↦ ground (arith, e, n, h)
      | inr (k, e') ↦ ground (arith, e, e', h)
    ]
  ]

  parse_version_failed :
      (ver after : List ℕ) (c : HttpResponseContext)
      → (parse_version stoi stoll ver after c).0 ≡ false
      → (parse_version stoi stoll ver after c).1.state ≡ k_error
  unfolding parse_version failed
  parse_version_failed ver after c h = elim (Option-cases (split_at 46 ver)) [
    | inl n ↦ ground (arith, n, h)
    | inr ((a, b), e) ↦ elim (Option-cases (stoi a)) [
      | inl n ↦ ground (arith, e, n, h)
      | inr (major, e') ↦ elim (Option-cases (stoi b)) [
        | inl n ↦ ground (arith, e, e', n, h)
        | inr (minor, e'') ↦ ground (
          arith,
          e,
          e',
          e'',
          h,
          parse_status_failed after (record c { http_major = major; http_minor = minor }),
        )
      ]
    ]
  ]

  parse_status_line_failed :
      (line : List ℕ) (c : HttpResponseContext)
      → (parse_status_line stoi stoll line c).0 ≡ false
      → (parse_status_line stoi stoll line c).1.state ≡ k_error
  unfolding parse_status_line failed
  parse_status_line_failed line c h = elim (Option-cases (split_at 32 line)) [
    | inl n ↦ ground (arith, n, h)
    | inr ((before, after), e) ↦ ground (arith, e, h, parse_version_failed (drop 5 before) after c)
  ]

  set_framing-Moves :
      (c : HttpResponseContext)
      → ((set_framing stoi stoll c).state ≡ k_expect_body) × Moves (set_framing stoi stoll c)
  unfolding set_framing stalled
  set_framing-Moves c = ground arith

  -- A header block that is refused leaves the error state, and one that is accepted a body to read.
  pub parse_header_block_state :
      (block : List ℕ) (c : HttpResponseContext)
      → let r = parse_header_block stoi stoll block c in
        (r.0 ≡ false → r.1.state ≡ k_error)
        × (r.0 ≡ true → (r.1.state ≡ k_expect_body) × (r.1.chunked ≡ true → stalled r.1 ≡ false))
  unfolding parse_header_block failed
  parse_header_block_state block c = elim (Option-cases (split_crlf block)) [
    | inl n ↦ ground (arith, n)
    | inr ((line, rest), e) ↦
        let (good, c') = parse_status_line stoi stoll line (record c { headers = [] }) in
        ground (
          arith,
          e,
          parse_status_line_failed line (record c { headers = [] }),
          set_framing-Moves (record c' { headers = header_lines (length rest) rest [] }),
        )
  ]

module _ (stoi : List ℕ → Option ℤ) (stoll : List ℕ → Option ℤ) (strtoull : List ℕ → Option ℕ) where
  consume_body-Consumed :
      (c : HttpResponseContext) (p : List ℕ)
      → Moves c
      → let r = consume_body stoi stoll strtoull c p in
        (r.0 ≢ none)
        × Moves r.1
        × (r.0 ≡ some true → r.1.needs_close_to_finish ≡ false → r.1.state ≢ k_got_all → r.2 ≡ [])
        × (r.0 ≡ some false → r.1.state ≡ k_error)
  unfolding consume_body consume_chunked stalled
  consume_body-Consumed c p live = ground (
    arith,
    live,
    consume_loop-Consumed strtoull (suc (length p)) c p,
    drop_all (min c.body_remaining (length p)) p,
  )

  -- What a call of feed leaves.
  abbrev pub Fed : Option Bool × HttpResponseContext → Type 0
  Fed (result, c) = (result ≡ some (got_all c.state)) × IsLive c

  pub feed_rest-Fed :
      (c : HttpResponseContext) (p : List ℕ) → Moves c → Fed (feed_rest stoi stoll strtoull c p)
  unfolding feed_rest got_all
  feed_rest-Fed c [] live = (refl, λ _. live)
  feed_rest-Fed c (b ∷ bs) live =
      let r = consume_body stoi stoll strtoull c (b ∷ bs) in
      let k = consume_body-Consumed c (b ∷ bs) live in
      elim (Option-cases r.0) [
        | inl n ↦ absurd (k.0 n)
        | inr (true, e) ↦ ground (arith, e, k)
        | inr (false, e) ↦ ground (arith, e, k)
      ]

  pub feed_header-Fed :
      (c : HttpResponseContext) (p : List ℕ)
      → got_all c.state ≡ false
      → c.state ≢ k_expect_body
      → Fed (feed_header stoi stoll strtoull c p)
  unfolding feed_header got_all stalled
  feed_header-Fed c p open_ live =
      let buf = c.header_buf ++ p in
      elim (Option-cases (header_end buf)) [
        | inl n ↦ ground (arith, n, open_, live)
        | inr (n, e) ↦
            let r = parse_header_block stoi stoll (take n buf) (record c { header_buf = [] }) in
            let h =
              parse_header_block_state stoi stoll (take n buf) (record c { header_buf = [] }) in
            elim (Bool-cases r.0) [
              | inl e' ↦ ground (arith, e, e', h, feed_rest-Fed r.1 (drop n buf))
              | inr e' ↦ ground (arith, e, e', h)
            ]
      ]

  -- The second test of the loop ends it.
  feed_loop_end :
      (c : HttpResponseContext) (p : List ℕ)
      → (c.state ≢ k_got_all → p ≡ [])
      → IsLive c
      → Fed (feed_loop stoi stoll strtoull 1 c p)
  unfolding feed_loop got_all
  feed_loop_end c [] all live = (refl, live)
  feed_loop_end c (b ∷ bs) all live = ground (arith, all, live)

  -- feed ends: two rounds of its loop are enough, if some branch of the loop over the chunks applies
  -- to the context, and then such a branch applies to the context that it leaves. The value that it
  -- returns is the test of its last line, whether the state is kGotAll.
  pub feed_returns :
      (c : HttpResponseContext) (p : List ℕ)
      → IsLive c
      → let r = feed stoi stoll strtoull c p in (r.0 ≡ some (got_all r.1.state)) × IsLive r.1
  unfolding feed feed_loop got_all stalled
  feed_returns c [] live = (refl, live)
  feed_returns c (b ∷ bs) live =
      let r = consume_body stoi stoll strtoull c (b ∷ bs) in
      let k = consume_body-Consumed c (b ∷ bs) in
      elim (Option-cases r.0) [
        | inl n ↦ ground (arith, n, k, live, feed_header-Fed c (b ∷ bs))
        | inr (good, e) ↦ ground (arith, e, k, feed_header-Fed c (b ∷ bs), feed_loop_end r.1 r.2)
      ]
