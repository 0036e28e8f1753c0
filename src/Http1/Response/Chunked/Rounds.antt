-- ===== src/Http1/Response/Chunked/Rounds.antt =====
-- consumeChunked returns: every round that goes on consumes a byte, and some branch of the loop always
-- applies.
use linux_highperf_proxy.Base.{
  ℕ, zero, suc, ◌<◌, ◌≡◌, ◌≢◌, refl, List, [], ◌∷◌, ◌++◌, Option, none, some, Option-cases, min,
  Bool, true, inl, inr, false, not, ◌&&◌, ◌==◌, length, length-drop, arith,
}
use linux_highperf_proxy.Http1.Context.{again, done, split_crlf, after_blank_line}
use linux_highperf_proxy.Http1.Context.Rounds.{split_crlf-shorter, Next-cases}
use linux_highperf_proxy.Http1.Response.{HttpResponseContext, k_got_all, k_error}
use linux_highperf_proxy.Http1.Response.Chunked.{
  Round, trailer_round, size_text, size_round, data_round, crlf_round, chunked_round, consume_loop,
}

-- No branch of the loop applies.
unfoldable pub stalled : HttpResponseContext → Bool
stalled c =
    not c.trailer
    && (not c.expecting_chunk_size && ((c.chunk_remaining == 0) && (c.chunk_crlf_remaining == 0)))

-- What a round leaves: one that goes on has consumed a byte; one that ends well has consumed all or
-- completed the response; one that ends badly has noted the error.
abbrev Goes : List ℕ → Round → Type 0
Goes p (next, c, rest) =
    (stalled c ≡ false)
    × (next ≡ again → length rest < length p)
    × (next ≡ done true → c.state ≢ k_got_all → rest ≡ [])
    × (next ≡ done false → c.state ≡ k_error)

trailer_round-Goes :
    (c : HttpResponseContext) (p : List ℕ) → c.trailer ≡ true → Goes p (trailer_round c p)
unfolding trailer_round stalled
trailer_round-Goes c p t = elim (Option-cases (after_blank_line p)) [
  | inl n ↦ ground (arith, n, t)
  | inr (rest, e) ↦ ground (arith, e, t)
]

data_round-Goes :
    (c : HttpResponseContext) (b : ℕ) (bs : List ℕ)
    → 0 < c.chunk_remaining
    → Goes (b ∷ bs) (data_round c (b ∷ bs))
unfolding data_round stalled
data_round-Goes c b bs more =
    ground (arith, length-drop (min c.chunk_remaining (length (b ∷ bs))) (b ∷ bs))

crlf_round-Goes :
    (c : HttpResponseContext) (b : ℕ) (bs : List ℕ)
    → stalled c ≡ false
    → 0 < c.chunk_crlf_remaining
    → Goes (b ∷ bs) (crlf_round c (b ∷ bs))
unfolding crlf_round stalled
crlf_round-Goes c b bs live more =
    ground (arith, length-drop (min c.chunk_crlf_remaining (length (b ∷ bs))) (b ∷ bs))

module _ (strtoull : List ℕ → Option ℕ) where
  size_round-Goes :
      (c : HttpResponseContext) (p : List ℕ)
      → c.expecting_chunk_size ≡ true
      → Goes p (size_round strtoull c p)
  unfolding size_round stalled
  size_round-Goes c p t = elim (Option-cases (split_crlf p)) [
    | inl n ↦ ground (arith, n, t)
    | inr ((before, rest), e) ↦
        elim (Option-cases (strtoull (size_text (c.chunk_line_buf ++ before)))) [
          | inl n ↦ ground (arith, e, n, t)
          | inr (zero, e') ↦ ground (arith, e, e', t, split_crlf-shorter p e)
          | inr (suc k, e') ↦ ground (arith, e, e', t, split_crlf-shorter p e)
        ]
  ]

  chunked_round-Goes :
      (c : HttpResponseContext) (b : ℕ) (bs : List ℕ)
      → stalled c ≡ false
      → Goes (b ∷ bs) (chunked_round strtoull c (b ∷ bs))
  unfolding chunked_round stalled
  chunked_round-Goes c b bs live = ground (
    arith,
    trailer_round-Goes c (b ∷ bs),
    size_round-Goes c (b ∷ bs),
    data_round-Goes c b bs,
    crlf_round-Goes c b bs,
  )

  -- What the loop leaves.
  abbrev pub Consumed : Option Bool × HttpResponseContext × List ℕ → Type 0
  Consumed (result, c, rest) =
      (result ≢ none)
      × (stalled c ≡ false)
      × (result ≡ some true → c.state ≢ k_got_all → rest ≡ [])
      × (result ≡ some false → c.state ≡ k_error)

  pub consume_loop-Consumed :
      (fuel : ℕ) (c : HttpResponseContext) (p : List ℕ)
      → stalled c ≡ false
      → length p < fuel
      → Consumed (consume_loop strtoull fuel c p)
  unfolding consume_loop
  consume_loop-Consumed zero c p live less = absurd (omega arith)
  consume_loop-Consumed (suc fuel) c [] live less = ground (arith, live)
  consume_loop-Consumed (suc fuel) c (b ∷ bs) live less =
      let r = chunked_round strtoull c (b ∷ bs) in
      let g = chunked_round-Goes c b bs live in
      elim (Next-cases r.0) [
        | inl e ↦ ground (arith, e, g, consume_loop-Consumed fuel r.1 r.2)
        | inr (result, e) ↦ ground (arith, e, g)
      ]

  size_round_kind :
      (c : HttpResponseContext) (p : List ℕ) → (size_round strtoull c p).1.chunked ≡ c.chunked
  unfolding size_round
  size_round_kind c p = elim (Option-cases (split_crlf p)) [
    | inl n ↦ ground (arith, n)
    | inr ((before, rest), e) ↦
        elim (Option-cases (strtoull (size_text (c.chunk_line_buf ++ before)))) [
          | inl n ↦ ground (arith, e, n)
          | inr (zero, e') ↦ ground (arith, e, e')
          | inr (suc k, e') ↦ ground (arith, e, e')
        ]
  ]

  chunked_round_kind :
      (c : HttpResponseContext) (p : List ℕ) → (chunked_round strtoull c p).1.chunked ≡ c.chunked
  unfolding chunked_round trailer_round data_round crlf_round
  chunked_round_kind c p = elim (Option-cases (after_blank_line p)) [
    | inl m ↦ ground (arith, m, size_round_kind c p)
    | inr (found, m) ↦ ground (arith, m, size_round_kind c p)
  ]

  -- Consuming a body does not change how it is delimited.
  pub consume_loop_kind :
      (fuel : ℕ) (c : HttpResponseContext) (p : List ℕ)
      → (consume_loop strtoull fuel c p).1.chunked ≡ c.chunked
  unfolding consume_loop
  consume_loop_kind zero c p = refl
  consume_loop_kind (suc fuel) c [] = refl
  consume_loop_kind (suc fuel) c (b ∷ bs) =
      let r = chunked_round strtoull c (b ∷ bs) in
      elim (Next-cases r.0) [
        | inl e ↦ ground (arith, e, chunked_round_kind c (b ∷ bs), consume_loop_kind fuel r.1 r.2)
        | inr (result, e) ↦ ground (arith, e, chunked_round_kind c (b ∷ bs))
      ]
