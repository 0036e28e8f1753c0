-- ===== src/Http1/Context/Rounds.antt =====
-- HttpContext::parseRequest returns: every round that goes on reads a byte.
use linux_highperf_proxy.Base.{
  ℕ, zero, suc, ◌<◌, ◌≡◌, ◌≢◌, ◌⊎◌, refl, sym, ap, ◌∙◌, List, [], ◌∷◌, Option, none, some,
  Option-cases, Bool, inl, inr, false, length, length-drop, drop, arith,
}
use linux_highperf_proxy.Base.Bytes.{codes}
use linux_highperf_proxy.Http1.Request.{get_header}
use linux_highperf_proxy.Http1.Context.{
  HttpContext, ParseState, k_expect_request_line, k_expect_headers, k_expect_body, k_got_all, Next,
  again, done, Round, split_crlf, split_at, after_blank_line, request_line_round, end_headers,
  headers_round, chunk_data, last_chunk, size_text, chunk_size_line, length_body, body_round, round,
  parse_loop, parse_request,
}

pub split_crlf-shorter :
    (input : List ℕ) {line rest : List ℕ}
    → split_crlf input ≡ some (line, rest)
    → length rest < length input
unfolding split_crlf
split_crlf-shorter [] e = cc
split_crlf-shorter (b ∷ bs) e = elim (Option-cases (split_crlf bs)) [
  | inl n ↦ ground (arith, n, e, length-drop 1 bs)
  | inr ((xs, ys), e') ↦ ground (arith, e, e', length-drop 1 bs, split_crlf-shorter bs e')
]

-- A round that goes on has fewer bytes left than it was given, and does not go on in the last state.
abbrev Shrinks : List ℕ → Round → Type 0
Shrinks input (next, c, rest) = next ≡ again → (length rest < length input) × (c.state ≢ k_got_all)

pub Next-cases : (n : Next) → (n ≡ again) ⊎ ((result : Bool) × (n ≡ done result))
Next-cases again = inl refl
Next-cases (done result) = inr (result, refl)

request_line_round-Shrinks :
    (c : HttpContext) (input : List ℕ) → Shrinks input (request_line_round c input)
unfolding request_line_round
request_line_round-Shrinks c input e = elim (Option-cases (split_crlf input)) [
  | inl n ↦ ground (arith, n, e)
  | inr ((line, rest), e') ↦ ground (arith, e', e, split_crlf-shorter input e')
]

module _ (strtoll : ℕ → List ℕ → Option ℕ) where
  end_headers_again :
      (c : HttpContext) (rest : List ℕ)
      → (end_headers strtoll c rest).0 ≡ again
      → ((end_headers strtoll c rest).2 ≡ rest)
        × ((end_headers strtoll c rest).1.state ≡ k_expect_body)
  unfolding end_headers
  end_headers_again c rest e =
      elim (Option-cases (strtoll 10 (get_header (codes "Content-Length") c.request))) [
        | inl n ↦ ground (arith, n, e)
        | inr (zero, e') ↦ ground (arith, e', e)
        | inr (suc n, e') ↦ ground (arith, e', e)
      ]

  headers_round-Shrinks :
      (c : HttpContext) (input : List ℕ)
      → c.state ≢ k_got_all
      → Shrinks input (headers_round strtoll c input)
  unfolding headers_round
  headers_round-Shrinks c input live e = elim (Option-cases (split_crlf input)) [
    | inl n ↦ ground (arith, n, e)
    | inr ((line, rest), e') ↦ elim (Option-cases (split_at 58 line)) [
      | inl n ↦ ground (arith, e', n, e, split_crlf-shorter input e', end_headers_again c rest)
      | inr ((field, after), e'') ↦ ground (arith, e', e'', e, live, split_crlf-shorter input e')
    ]
  ]

  chunk_data-Shrinks :
      (c : HttpContext) (input : List ℕ)
      → c.state ≢ k_got_all
      → Shrinks input (chunk_data strtoll c input)
  unfolding chunk_data
  chunk_data-Shrinks c input live e =
      let rest = drop c.chunk_size input in
      ground (arith, e, live, length-drop c.chunk_size input, length-drop 2 rest)

  last_chunk_stops : (c : HttpContext) (input : List ℕ) → (last_chunk strtoll c input).0 ≢ again
  unfolding last_chunk
  last_chunk_stops c input e = elim (Option-cases (after_blank_line input)) [
    | inl n ↦ ground (arith, n, e)
    | inr (rest, e') ↦ ground (arith, e', e)
  ]

  chunk_size_line-Shrinks :
      (c : HttpContext) (input : List ℕ)
      → c.state ≢ k_got_all
      → Shrinks input (chunk_size_line strtoll c input)
  unfolding chunk_size_line
  chunk_size_line-Shrinks c input live e = elim (Option-cases (split_crlf input)) [
    | inl n ↦ ground (arith, n, e)
    | inr ((line, rest), e') ↦ elim (Option-cases (strtoll 16 (size_text strtoll line))) [
      | inl n ↦ ground (arith, e', n, e)
      | inr (zero, e'') ↦ ground (
        arith,
        e',
        e'',
        e,
        last_chunk_stops (record c { chunk_size = 0; expecting_chunk_size = false }) rest,
      )
      | inr (suc n, e'') ↦ ground (
        arith,
        e',
        e'',
        e,
        live,
        split_crlf-shorter input e',
        chunk_data-Shrinks (record c { chunk_size = suc n; expecting_chunk_size = false }) rest
            live,
      )
    ]
  ]

  body_round-Shrinks :
      (c : HttpContext) (input : List ℕ)
      → c.state ≢ k_got_all
      → Shrinks input (body_round strtoll c input)
  unfolding body_round length_body
  body_round-Shrinks c input live e =
      ground (arith, e, chunk_size_line-Shrinks c input live, chunk_data-Shrinks c input live)

  round-Shrinks :
      (s : ParseState) (c : HttpContext) (input : List ℕ)
      → s ≢ k_got_all
      → c.state ≡ s
      → Shrinks input (round strtoll s c input)
  unfolding round
  round-Shrinks k_expect_request_line c input live same e = request_line_round-Shrinks c input e
  round-Shrinks k_expect_headers c input live same e =
      headers_round-Shrinks c input (λ got. live (sym same ∙ got)) e
  round-Shrinks k_expect_body c input live same e =
      body_round-Shrinks c input (λ got. live (sym same ∙ got)) e
  round-Shrinks k_got_all c input live same e = absurd (live refl)

  parse_loop_again :
      (fuel : ℕ) (c : HttpContext) (input : List ℕ)
      → (round strtoll c.state c input).0 ≡ again
      → parse_loop strtoll (suc fuel) c input
        ≡ parse_loop strtoll fuel
            (round strtoll c.state c input).1
            (round strtoll c.state c input).2
  unfolding parse_loop
  parse_loop_again fuel c input e = rw (e, parse_loop) refl

  parse_loop_done :
      (fuel : ℕ) (c : HttpContext) (input : List ℕ) (result : Bool)
      → (round strtoll c.state c input).0 ≡ done result
      → (parse_loop strtoll (suc fuel) c input).0 ≡ some result
  unfolding parse_loop
  parse_loop_done fuel c input result e = rw (e, parse_loop) refl

  parse_loop_returns :
      (fuel : ℕ) (c : HttpContext) (input : List ℕ)
      → c.state ≢ k_got_all
      → length input < fuel
      → (parse_loop strtoll fuel c input).0 ≢ none
  parse_loop_returns zero c input live less = absurd (omega arith)
  parse_loop_returns (suc fuel) c input live less =
      let r = round strtoll c.state c input in
      elim (Next-cases r.0) [
        | inl e ↦
            let (less', live') = round-Shrinks c.state c input live refl e in
            λ x.
              parse_loop_returns fuel r.1 r.2 live' (omega (arith, less, less'))
                (ap (λ y. y.0) (sym (parse_loop_again fuel c input e)) ∙ x)
        | inr (result, e) ↦ λ x. ground (arith, x, parse_loop_done fuel c input result e)
      ]

  -- parseRequest returns, unless it is called again after the request is complete without a reset in
  -- between.
  pub parse_request_returns :
      (c : HttpContext) (input : List ℕ)
      → c.state ≢ k_got_all
      → (parse_request strtoll c input).0 ≢ none
  unfolding parse_request
  parse_request_returns c input live =
      parse_loop_returns (suc (length input)) c input live (omega arith)

  -- A request that is complete is not left by parseRequest: called again without a reset, it goes
  -- round for ever, whatever the fuel and the bytes.
  pub parse_loop_complete :
      (fuel : ℕ) (c : HttpContext) (input : List ℕ)
      → c.state ≡ k_got_all
      → (parse_loop strtoll fuel c input).0 ≡ none
  unfolding parse_loop round
  parse_loop_complete zero c input e = refl
  parse_loop_complete (suc fuel) c input e = ground (arith, e, parse_loop_complete fuel c input e)
