-- ===== src/Http1/Response/Feed/Splits.antt =====
-- HttpResponseContext::feed: where the bytes of a response are cut into reads makes no difference,
-- if its body is not chunked.
use linux_highperf_proxy.Base.{
  ℕ, suc, ◌+◌, ◌-◌, ◌<◌, ◌≤◌, ◌≡◌, ◌⊎◌, refl, sym, ap, ◌∙◌, List, [], ◌∷◌, ◌++◌, Option, some,
  Option-cases, Bool-cases, List-cases, drop_all, inl, inr, false, length, length-append, drop,
  drop_append, take, take_append, append_assoc, append-nil, ◌==◌, if◌then◌else◌, min, arith,
}
use linux_highperf_proxy.Base.Int.{ℤ}
use linux_highperf_proxy.Http1.Response.{
  HttpResponseContext, ParseState, k_expect_status_line, k_expect_headers, k_expect_body, k_got_all,
  k_error, parse_header_block,
}
use linux_highperf_proxy.Http1.Response.Chunked.{consume_chunked}
use linux_highperf_proxy.Http1.Response.Chunked.Rounds.{consume_loop_kind}
use linux_highperf_proxy.Http1.Response.Feed.{
  header_end, consume_body, feed_rest, feed_header, feed_loop, feed,
}
use linux_highperf_proxy.Http1.Response.Feed.Returns.{
  IsLive, parse_header_block_state, feed_returns,
}

-- The end of the header block stays where it is when more bytes come.
header_end-append :
    (xs ys : List ℕ) {n : ℕ}
    → header_end xs ≡ some n
    → (header_end (xs ++ ys) ≡ some n) × (n ≤ length xs)
unfolding header_end
header_end-append [] ys e = cc
header_end-append (b ∷ []) ys e = ground (arith, e)
header_end-append (b ∷ b' ∷ []) ys e = ground (arith, e)
header_end-append (b ∷ b' ∷ b'' ∷ []) ys e = ground (arith, e)
header_end-append (b ∷ b' ∷ b'' ∷ b3 ∷ bs) ys {n} e =
    elim (Option-cases (header_end (b' ∷ b'' ∷ b3 ∷ bs))) [
      | inl m ↦ ground (arith, e, m)
      | inr (k, m) ↦ ground (arith, e, m, header_end-append (b' ∷ b'' ∷ b3 ∷ bs) ys m)
    ]

-- A body that is not chunked depends on the bytes only by how many they are.
after : HttpResponseContext → ℕ → HttpResponseContext
after c m =
    let n = min c.body_remaining m in
    let c' = record c { body_remaining = c.body_remaining - n } in
    if c.needs_close_to_finish
    then c
    else if c.body_remaining - n == 0
    then record c' { state = k_got_all }
    else c'

module _ (stoi : List ℕ → Option ℤ) (stoll : List ℕ → Option ℤ) (strtoull : List ℕ → Option ℕ) where
  feed_rest-after :
      (c : HttpResponseContext) (b : ℕ) (bs : List ℕ)
      → c.chunked ≡ false
      → (feed_rest stoi stoll strtoull c (b ∷ bs)).1 ≡ after c (length (b ∷ bs))
  unfolding feed_rest consume_body after
  feed_rest-after c b bs plain = ground (arith, plain)

  feed-after :
      (c : HttpResponseContext) (b : ℕ) (bs : List ℕ)
      → c.state ≡ k_expect_body
      → c.chunked ≡ false
      → (feed stoi stoll strtoull c (b ∷ bs)).1 ≡ after c (length (b ∷ bs))
  unfolding feed feed_loop consume_body after
  feed-after c b bs body plain =
      let n = min c.body_remaining (length (b ∷ bs)) in
      elim (Bool-cases (c.body_remaining - n == 0)) [
        | inl e ↦ elim (List-cases (drop n (b ∷ bs))) [
          | inl d ↦ ground (arith, plain, body, e, d)
          | inr (y, ys, d) ↦ ground (arith, plain, body, e, d)
        ]
        | inr e ↦ ground (arith, plain, body, e, drop_all n (b ∷ bs))
      ]

  -- Bytes in two parts count as they do in one.
  feed_again_after :
      (c : HttpResponseContext) (m : ℕ) (b : ℕ) (bs : List ℕ)
      → c.state ≡ k_expect_body
      → c.chunked ≡ false
      → 0 < m
      → (feed stoi stoll strtoull (after c m) (b ∷ bs)).1 ≡ after c (m + length (b ∷ bs))
  unfolding after feed feed_loop
  feed_again_after c m b bs body plain some_bytes = elim (Bool-cases c.needs_close_to_finish) [
    | inl e ↦ ground (arith, e, feed-after c b bs, body, plain)
    | inr e ↦ ground (
      arith,
      e,
      feed-after (record c { body_remaining = c.body_remaining - min c.body_remaining m }) b bs,
      body,
      plain,
    )
  ]

  feed_rest_kind :
      (c : HttpResponseContext) (p : List ℕ)
      → (feed_rest stoi stoll strtoull c p).1.chunked ≡ c.chunked
  unfolding feed_rest consume_body consume_chunked
  feed_rest_kind c [] = refl
  feed_rest_kind c (b ∷ bs) =
      let r = consume_body stoi stoll strtoull c (b ∷ bs) in
      elim (Option-cases r.0) [
        | inl n ↦ ground (arith, n, consume_loop_kind strtoull (suc (length (b ∷ bs))) c (b ∷ bs))
        | inr (good, e) ↦
            ground (arith, e, consume_loop_kind strtoull (suc (length (b ∷ bs))) c (b ∷ bs))
      ]

  feed_rest-append :
      (c : HttpResponseContext) (xs : List ℕ) (y : ℕ) (ys : List ℕ)
      → c.state ≡ k_expect_body
      → c.chunked ≡ false
      → (feed stoi stoll strtoull (feed_rest stoi stoll strtoull c xs).1 (y ∷ ys)).1
        ≡ (feed_rest stoi stoll strtoull c (xs ++ (y ∷ ys))).1
  feed_rest-append c [] y ys body plain =
      unfold feed_rest in feed-after c y ys body plain ∙ sym (feed_rest-after c y ys plain)
  feed_rest-append c (x ∷ xs) y ys body plain = ground (
    arith,
    feed_rest-after c x xs plain,
    feed_rest-after c x (xs ++ (y ∷ ys)) plain,
    feed_again_after c (length (x ∷ xs)) y ys body plain,
    length-append (x ∷ xs) (y ∷ ys),
  )

  -- The header block ends in the first part, or not.
  feed_header-append :
      (c : HttpResponseContext) (x : ℕ) (xs : List ℕ) (y : ℕ) (ys : List ℕ)
      → (c.state ≡ k_expect_status_line) ⊎ (c.state ≡ k_expect_headers)
      → (feed_header stoi stoll strtoull c ((x ∷ xs) ++ (y ∷ ys))).1.chunked ≡ false
      → (feed stoi stoll strtoull (feed_header stoi stoll strtoull c (x ∷ xs)).1 (y ∷ ys)).1
        ≡ (feed_header stoi stoll strtoull c ((x ∷ xs) ++ (y ∷ ys))).1
  unfolding feed_header feed feed_loop
  feed_header-append c x xs y ys open_ plain =
      let buf = c.header_buf ++ (x ∷ xs) in
      let bare = record c { header_buf = [] } in
      let same : c.header_buf ++ (x ∷ (xs ++ (y ∷ ys))) ≡ buf ++ (y ∷ ys) =
        sym (append_assoc c.header_buf (x ∷ xs) (y ∷ ys)) in
      elim (Option-cases (header_end buf)) [
        | inl n ↦ elim (Option-cases (header_end (buf ++ (y ∷ ys)))) [
          | inl n' ↦ ground (arith, same, n, n', open_)
          | inr (k, e') ↦ ground (arith, same, n, e', open_)
        ]
        | inr (k, e) ↦
            let (e', within) = header_end-append buf (y ∷ ys) e in
            let r = parse_header_block stoi stoll (take k buf) bare in
            ground (
              arith,
              same,
              e,
              e',
              take_append k buf (y ∷ ys) within,
              drop_append k buf (y ∷ ys) within,
              parse_header_block_state stoi stoll (take k buf) bare,
              feed_rest_kind r.1 (drop k buf ++ (y ∷ ys)),
              feed_rest-append r.1 (drop k buf) y ys,
            )
      ]

  feed_parts :
      (s : ParseState) (c : HttpResponseContext) (x : ℕ) (xs : List ℕ) (y : ℕ) (ys : List ℕ)
      → c.state ≡ s
      → c.chunked ≡ false
      → (feed stoi stoll strtoull c ((x ∷ xs) ++ (y ∷ ys))).1.chunked ≡ false
      → (feed stoi stoll strtoull (feed stoi stoll strtoull c (x ∷ xs)).1 (y ∷ ys)).1
        ≡ (feed stoi stoll strtoull c ((x ∷ xs) ++ (y ∷ ys))).1
  unfolding feed feed_loop
  feed_parts k_error c x xs y ys e plain h = ground (arith, e)
  feed_parts k_got_all c x xs y ys e plain h = ground (arith, e)
  feed_parts k_expect_status_line c x xs y ys e plain h =
      ground (arith, e, h, feed_header-append c x xs y ys (inl e))
  feed_parts k_expect_headers c x xs y ys e plain h =
      ground (arith, e, h, feed_header-append c x xs y ys (inr e))
  feed_parts k_expect_body c x xs y ys e plain h = ground (
    arith,
    feed-after c x xs e plain,
    feed-after c x (xs ++ (y ∷ ys)) e plain,
    feed_again_after c (length (x ∷ xs)) y ys e plain,
    length-append (x ∷ xs) (y ∷ ys),
  )

  feed-append_state :
      (c : HttpResponseContext) (xs ys : List ℕ)
      → c.chunked ≡ false
      → (feed stoi stoll strtoull c (xs ++ ys)).1.chunked ≡ false
      → (feed stoi stoll strtoull (feed stoi stoll strtoull c xs).1 ys).1
        ≡ (feed stoi stoll strtoull c (xs ++ ys)).1
  feed-append_state c [] ys plain h = unfold feed feed_loop in refl
  feed-append_state c (x ∷ xs) [] plain h =
      unfold feed feed_loop in
      ap (λ zs. (feed stoi stoll strtoull c zs).1) (sym (append-nil (x ∷ xs)))
  feed-append_state c (x ∷ xs) (y ∷ ys) plain h = feed_parts c.state c x xs y ys refl plain h

  -- A response that is not chunked: where its bytes are cut into two reads changes neither the
  -- context that the second one leaves nor what that one returns. Before and after, the context does
  -- not say that the body is chunked.
  pub feed-append :
      (c : HttpResponseContext) (xs ys : List ℕ)
      → c.chunked ≡ false
      → (feed stoi stoll strtoull c (xs ++ ys)).1.chunked ≡ false
      → feed stoi stoll strtoull (feed stoi stoll strtoull c xs).1 ys
        ≡ feed stoi stoll strtoull c (xs ++ ys)
  feed-append c xs ys plain h =
      let live : IsLive c = λ s t. cc in
      let mid = feed_returns stoi stoll strtoull c xs live in
      ground (
        arith,
        feed-append_state c xs ys plain h,
        feed_returns stoi stoll strtoull c (xs ++ ys) live,
        feed_returns stoi stoll strtoull (feed stoi stoll strtoull c xs).1 ys mid.1,
      )
