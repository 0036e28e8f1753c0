-- ===== src/Http1/Response/Feed/Waits.antt =====
-- HttpResponseContext::feed: complete responses that it goes on waiting for.
use linux_highperf_proxy.Base.{
  ℕ, ◌≡◌, ◌⊎◌, List, [], ◌∷◌, ◌++◌, Option, some, true, false, length, drop_all, take_all, arith,
}
use linux_highperf_proxy.Base.Int.{ℤ}
use linux_highperf_proxy.Http1.Response.{
  HttpResponseContext, k_expect_status_line, k_expect_headers, k_expect_body, parse_header_block,
}
use linux_highperf_proxy.Http1.Response.Feed.{
  header_end, got_all, feed_rest, feed_header, feed_loop, feed,
}
use linux_highperf_proxy.Http1.Response.Feed.Returns.{parse_header_block_state}

module _ (stoi : List ℕ → Option ℤ) (stoll : List ℕ → Option ℤ) (strtoull : List ℕ → Option ℕ) where
  -- A read ends where a header block ends that parseHeaderBlock accepts: feed returns false and waits
  -- for a body, whatever the headers say of its length, a length of 0 included.
  pub bodyless_waits :
      (c : HttpResponseContext) (b : ℕ) (bs : List ℕ)
      → (c.state ≡ k_expect_status_line) ⊎ (c.state ≡ k_expect_headers)
      → header_end (c.header_buf ++ (b ∷ bs)) ≡ some (length (c.header_buf ++ (b ∷ bs)))
      → (parse_header_block stoi stoll (c.header_buf ++ (b ∷ bs)) (record c { header_buf = [] })).0
        ≡ true
      → let r = feed stoi stoll strtoull c (b ∷ bs) in
        (r.0 ≡ some false) × (r.1.state ≡ k_expect_body)
  unfolding feed feed_loop feed_header feed_rest got_all
  bodyless_waits c b bs open_ e good =
      let buf = c.header_buf ++ (b ∷ bs) in
      ground (
        arith,
        open_,
        e,
        good,
        take_all (length buf) buf,
        drop_all (length buf) buf,
        parse_header_block_state stoi stoll buf (record c { header_buf = [] }),
      )
