-- ===== src/Rewrite.antt =====
-- include/proxy/protocol/RewriteRules.h and src/protocol/RewriteRules.cpp: rules that rewrite the
-- headers and the bodies of requests and responses, over HTTP/1 and HTTP/2.
pub mod Headers
pub mod Bodies
mod Tests
use linux_highperf_proxy.Base.{
  ℕ, zero, suc, ◌-◌, ◌==◌, List, [], ◌∷◌, ◌++◌, Option, none, some, Bool, true, false, not, ◌&&◌,
  ◌||◌, if◌then◌else◌, length, take, get_elem?,
}
use linux_highperf_proxy.Base.Bytes.{bytes_eq}
use linux_highperf_proxy.Hpack.StaticTable.{Header}
use linux_highperf_proxy.Http1.Request.{
  HttpRequest, Method, k_invalid, k_get, k_post, k_head, k_put, k_delete, method_of, iequals,
  set_header_ci, remove_header_ci, set_body,
}

-- The header maps are lists in the order in which they are iterated over.
pub record RewriteRule : Type 0 where
  pub path_prefix : List ℕ
  pub method : Method
  pub req_set_headers : List (List ℕ × List ℕ)
  pub req_del_headers : List (List ℕ)
  pub req_body_replaces : List (List ℕ × List ℕ)
  pub resp_set_headers : List (List ℕ × List ℕ)
  pub resp_del_headers : List (List ℕ)
  pub resp_body_replaces : List (List ℕ × List ℕ)

unfoldable pub has_response_mutations : RewriteRule → Bool
has_response_mutations r = elim r.resp_set_headers [
  | kv ∷ more ↦ true
  | [] ↦ elim r.resp_del_headers [
    | k ∷ more ↦ true
    | [] ↦ elim r.resp_body_replaces [ [] ↦ false | rp ∷ more ↦ true ]
  ]
]

-- s.rfind(prefix, 0) == 0
unfoldable pub starts_with : List ℕ → List ℕ → Bool
starts_with [] s = true
starts_with (p ∷ ps) [] = false
starts_with (p ∷ ps) (c ∷ cs) = (p == c) && starts_with ps cs

-- The loop of ReplaceAll: so many bytes still belong to an occurrence that has been replaced.
unfoldable pub replace_from : List ℕ → List ℕ → ℕ → List ℕ → List ℕ
replace_from from to skip [] = []
replace_from from to (suc skip) (c ∷ cs) = replace_from from to skip cs
replace_from from to zero (c ∷ cs) =
    let here = starts_with from (c ∷ cs) in
    let rest = replace_from from to (if here then length from - 1 else 0) cs in
    if here then to ++ rest else c ∷ rest

unfoldable pub replace_all : List ℕ → List ℕ → List ℕ → List ℕ
replace_all [] to s = s
replace_all (f ∷ fs) to s = replace_from (f ∷ fs) to 0 s

unfoldable pub set_header : List ℕ → List ℕ → List Header → List Header
set_header name value [] = record { name = name; value = value } ∷ []
set_header name value (h ∷ hs) =
    let rest = set_header name value hs in
    if iequals h.name name then (record h { value = value }) ∷ hs else h ∷ rest

unfoldable pub del_header : List ℕ → List Header → List Header
del_header name [] = []
del_header name (h ∷ hs) =
    let rest = del_header name hs in if iequals h.name name then rest else h ∷ rest

unfoldable pub same_method : Method → Method → Bool
same_method k_invalid k_invalid = true
same_method k_get k_get = true
same_method k_post k_post = true
same_method k_head k_head = true
same_method k_put k_put = true
same_method k_delete k_delete = true
same_method _ _ = false

unfoldable pub rule_matches : Method → List ℕ → RewriteRule → Bool
rule_matches m path r =
    starts_with r.path_prefix path && (same_method r.method k_invalid || same_method r.method m)

-- The index of the first rule that matches; `none` for -1.
unfoldable pub match_rules : List RewriteRule → Method → List ℕ → Option ℕ
match_rules [] m path = none
match_rules (r ∷ rs) m path =
    let rest = match_rules rs m path in
    if rule_matches m path r then some 0 else (elim rest [ none ↦ none | some i ↦ some (suc i) ])

unfoldable pub match_http1 : List RewriteRule → HttpRequest → Option ℕ
match_http1 rules req = match_rules rules req.method req.path

unfoldable pub match_http2 : List RewriteRule → List ℕ → List ℕ → Option ℕ
match_http2 rules method path = match_rules rules (method_of method) path

unfoldable pub set_headers_ci : List (List ℕ × List ℕ) → HttpRequest → HttpRequest
set_headers_ci [] req = req
set_headers_ci ((k, v) ∷ kvs) req = set_headers_ci kvs (set_header_ci k v req)

unfoldable pub remove_headers_ci : List (List ℕ) → HttpRequest → HttpRequest
remove_headers_ci [] req = req
remove_headers_ci (k ∷ ks) req = remove_headers_ci ks (remove_header_ci k req)

unfoldable pub replace_each : List (List ℕ × List ℕ) → List ℕ → List ℕ
replace_each [] s = s
replace_each ((from, to) ∷ rps) s = replace_each rps (replace_all from to s)

unfoldable pub set_headers : List (List ℕ × List ℕ) → List Header → List Header
set_headers [] hs = hs
set_headers ((k, v) ∷ kvs) hs = set_headers kvs (set_header k v hs)

unfoldable pub del_headers : List (List ℕ) → List Header → List Header
del_headers [] hs = hs
del_headers (k ∷ ks) hs = del_headers ks (del_header k hs)

abbrev pub some_of : {A : Type 0} → List A → Bool
some_of [] = false
some_of (x ∷ xs) = true

-- With the rule of that index; a body that the replacements leave as it is counts as unchanged.
unfoldable pub rewrite_http1 : RewriteRule → HttpRequest → Bool × HttpRequest
rewrite_http1 r req =
    let req' = remove_headers_ci r.req_del_headers (set_headers_ci r.req_set_headers req) in
    let b = replace_each r.req_body_replaces req'.body in
    let touched = some_of r.req_set_headers || some_of r.req_del_headers in
    if bytes_eq b req'.body then (touched, req') else (true, set_body b req')

-- A pointer may be null, here and below.
unfoldable pub apply_request_http1 :
    List RewriteRule → Option ℕ → Option HttpRequest → Bool × Option HttpRequest
apply_request_http1 rules _ none = (false, none)
apply_request_http1 rules none (some req) = (false, some req)
apply_request_http1 rules (some i) (some req) = elim (get_elem? rules i) [
  | none ↦ (false, some req)
  | some r ↦ let (changed, req') = rewrite_http1 r req in (changed, some req')
]

unfoldable pub rewrite_headers :
    List (List ℕ × List ℕ) → List (List ℕ) → Option (List Header) → Bool × Option (List Header)
rewrite_headers sets dels none = (false, none)
rewrite_headers sets dels (some hs) =
    (some_of sets || some_of dels, some (del_headers dels (set_headers sets hs)))

unfoldable pub rewrite_body : List (List ℕ × List ℕ) → Option (List ℕ) → Bool × Option (List ℕ)
rewrite_body replaces none = (false, none)
rewrite_body replaces (some body) = (some_of replaces, some (replace_each replaces body))

-- ApplyRequestHttp2 and ApplyResponse differ in the lists of the rule that they use.
unfoldable pub rewrite_parts :
    List (List ℕ × List ℕ)
    → List (List ℕ)
    → List (List ℕ × List ℕ)
    → Option (List Header)
    → Option (List ℕ)
    → Bool × Option (List Header) × Option (List ℕ)
rewrite_parts sets dels replaces headers body =
    let (in_headers, headers') = rewrite_headers sets dels headers in
    let (in_body, body') = rewrite_body replaces body in (in_headers || in_body, headers', body')

unfoldable pub apply_request_http2 :
    List RewriteRule
    → Option ℕ
    → Option (List Header)
    → Option (List ℕ)
    → Bool × Option (List Header) × Option (List ℕ)
apply_request_http2 rules none headers body = (false, headers, body)
apply_request_http2 rules (some i) headers body = elim (get_elem? rules i) [
  | none ↦ (false, headers, body)
  | some r ↦ rewrite_parts r.req_set_headers r.req_del_headers r.req_body_replaces headers body
]

unfoldable pub apply_response :
    List RewriteRule
    → Option ℕ
    → Option (List Header)
    → Option (List ℕ)
    → Bool × Option (List Header) × Option (List ℕ)
apply_response rules none headers body = (false, headers, body)
apply_response rules (some i) headers body = elim (get_elem? rules i) [
  | none ↦ (false, headers, body)
  | some r ↦ rewrite_parts r.resp_set_headers r.resp_del_headers r.resp_body_replaces headers body
]
