-- ===== src/Http1/Context/Lines.antt =====
-- HttpContext: the request line read back, and the last chunk cut in two.
use linux_highperf_proxy.Base.{
  ℕ, ◌≡◌, refl, List, [], ◌∷◌, ◌++◌, Option, none, some, Option-cases, inl, inr, true, false, arith,
}
use linux_highperf_proxy.Base.Bytes.{codes}
use linux_highperf_proxy.Http1.Request.{
  HttpRequest, Method, k_invalid, k_get, k_post, k_head, k_put, k_delete, k_http11, method_of,
  is_valid_method, method_string,
}
use linux_highperf_proxy.Http1.Context.{
  HttpContext, k_expect_body, split_at, split_crlf, set_target, set_version, process_request_line,
  chunk_data, chunk_size_line, body_round, round, parse_loop, parse_request,
}

split_at-append :
    (c : ℕ) (xs ys : List ℕ) → split_at c xs ≡ none → split_at c (xs ++ (c ∷ ys)) ≡ some (xs, ys)
unfolding split_at
split_at-append c [] ys e = ground arith
split_at-append c (x ∷ xs) ys e = elim (Option-cases (split_at c xs)) [
  | inl n ↦ ground (arith, e, n, split_at-append c xs ys n)
  | inr (p, e') ↦ ground (arith, e, e')
]

method_string-no_space : (m : Method) → split_at 32 (method_string m) ≡ none
unfolding split_at method_string
method_string-no_space k_invalid = refl
method_string-no_space k_get = refl
method_string-no_space k_post = refl
method_string-no_space k_head = refl
method_string-no_space k_put = refl
method_string-no_space k_delete = refl

method_of-method_string : (m : Method) → method_of (method_string m) ≡ m
unfolding method_of method_string
method_of-method_string k_invalid = refl
method_of-method_string k_get = refl
method_of-method_string k_post = refl
method_of-method_string k_head = refl
method_of-method_string k_put = refl
method_of-method_string k_delete = refl

-- A request line with a known method, a target without a blank, and HTTP/1.1 is accepted, and the
-- request gets that method, that target and that version; the rest of it is left alone.
pub process_request_line-method_string :
    (m : Method) (target : List ℕ) (r : HttpRequest)
    → is_valid_method m ≡ true
    → split_at 32 target ≡ none
    → process_request_line (method_string m ++ (32 ∷ target ++ (32 ∷ codes "HTTP/1.1"))) r
      ≡ (true, record (set_target target (record r { method = m })) { version = k_http11 })
unfolding process_request_line set_version
process_request_line-method_string m target r valid plain = ground (
  arith,
  valid,
  split_at-append 32 (method_string m) (target ++ (32 ∷ codes "HTTP/1.1"))
      (method_string-no_space m),
  split_at-append 32 target (codes "HTTP/1.1") plain,
  method_of-method_string m,
)

module _ (strtoll : ℕ → List ℕ → Option ℕ) where
  -- The size line of the last chunk has been read, and the CR LF that ends the request arrives in a
  -- read of its own: it is taken for the end of a chunk of data, and the request is not complete.
  pub last_chunk_cut :
      (c : HttpContext)
      → c.state ≡ k_expect_body
      → c.chunked ≡ true
      → c.expecting_chunk_size ≡ false
      → c.chunk_size ≡ 0
      → let r = parse_request strtoll c (13 ∷ 10 ∷ []) in
        (r.0 ≡ some true) × (r.1.state ≡ k_expect_body) × (r.2 ≡ [])
  unfolding parse_request parse_loop round body_round chunk_data chunk_size_line split_crlf
  last_chunk_cut c body chunked reading size = ground (arith, body, chunked, reading, size)
