-- ===== src/Rewrite/Headers.antt =====
-- What a rule leaves under a header name, every entry of it, in the map of an HTTP/1 request and in the list of an
-- HTTP/2 message.
use linux_highperf_proxy.Base.{
  ℕ, ◌≡◌, refl, sym, ◌∙◌, List, [], ◌∷◌, Option, none, some, Option-cases, Bool, Bool-cases, true,
  false, inl, inr, ◌||◌, if◌then◌else◌, arith,
}
use linux_highperf_proxy.Base.Bytes.{bytes_eq, bytes_eq_refl}
use linux_highperf_proxy.Base.Maps.{put, bytes_eq_trans, bytes_eq_comm}
use linux_highperf_proxy.Hpack.StaticTable.{Header}
use linux_highperf_proxy.Http1.Request.{
  HttpRequest, lower_ascii, iequals, erase_ci, set_header_ci, remove_header_ci, set_body,
}
use linux_highperf_proxy.Rewrite.{
  RewriteRule, set_header, del_header, set_headers, del_headers, set_headers_ci, remove_headers_ci,
  rewrite_http1, rewrite_headers, rewrite_parts,
}

lower : List ℕ → List ℕ
lower [] = []
lower (c ∷ cs) = lower_ascii c ∷ lower cs

iequals-lower : (a b : List ℕ) → iequals a b ≡ bytes_eq (lower a) (lower b)
unfolding iequals lower
iequals-lower [] [] = refl
iequals-lower [] (b ∷ bs) = refl
iequals-lower (a ∷ as_) [] = refl
iequals-lower (a ∷ as_) (b ∷ bs) = ground (arith, iequals-lower as_ bs)

pub iequals_trans : (a b c : List ℕ) → iequals a b ≡ true → iequals a c ≡ iequals b c
iequals_trans a b c h = ground (
  arith,
  h,
  iequals-lower a b,
  iequals-lower a c,
  iequals-lower b c,
  bytes_eq_trans (lower a) (lower b) (lower c),
)

pub iequals_comm : (a b : List ℕ) → iequals a b ≡ iequals b a
iequals_comm a b = iequals-lower a b ∙ bytes_eq_comm (lower a) (lower b) ∙ sym (iequals-lower b a)

bytes_eq→iequals : (a b : List ℕ) → bytes_eq a b ≡ true → iequals a b ≡ true
unfolding iequals
bytes_eq→iequals [] [] h = refl
bytes_eq→iequals [] (b ∷ bs) h = cc
bytes_eq→iequals (a ∷ as_) [] h = cc
bytes_eq→iequals (a ∷ as_) (b ∷ bs) h = ground (arith, bytes_eq→iequals as_ bs)

-- The values of all the entries whose name is the given one in some case.
unfoldable pub values_of : List ℕ → List (List ℕ × List ℕ) → List (List ℕ)
values_of n [] = []
values_of n ((k, v) ∷ m) = let rest = values_of n m in if iequals k n then v ∷ rest else rest

pub values_of-erase_ci :
    (field n : List ℕ) (m : List (List ℕ × List ℕ))
    → values_of n (erase_ci field m) ≡ (if iequals field n then [] else values_of n m)
unfolding values_of erase_ci
values_of-erase_ci field n [] = ground arith
values_of-erase_ci field n ((k, v) ∷ m) = elim (Bool-cases (iequals k field)) [
  | inl e ↦ ground (arith, e, values_of-erase_ci field n m, iequals_trans k field n e)
  | inr e ↦ elim (Bool-cases (iequals field n)) [
    | inl e' ↦ ground (
      arith,
      e,
      e',
      values_of-erase_ci field n m,
      iequals_trans field n k e',
      iequals_comm field k,
      iequals_comm n k,
    )
    | inr e' ↦ ground (arith, e, e', values_of-erase_ci field n m)
  ]
]

-- A key that is not there in any case goes behind the others.
values_of-put :
    (field value n : List ℕ) (m : List (List ℕ × List ℕ))
    → values_of field m ≡ []
    → values_of n (put field value m) ≡ (if iequals field n then value ∷ [] else values_of n m)
unfolding values_of put
values_of-put field value n [] h = refl
values_of-put field value n ((k, v) ∷ m) h = elim (Bool-cases (iequals k field)) [
  | inl e ↦ ground (arith, e, h)
  | inr e ↦ elim (Bool-cases (iequals field n)) [
    | inl e' ↦ ground (
      arith,
      e,
      e',
      h,
      values_of-put field value n m,
      iequals_trans field n k e',
      iequals_comm field k,
      iequals_comm n k,
      bytes_eq→iequals k field,
    )
    | inr e' ↦ ground (arith, e, e', h, values_of-put field value n m, bytes_eq→iequals k field)
  ]
]

iequals_refl : (a : List ℕ) → iequals a a ≡ true
iequals_refl a = bytes_eq→iequals a a (bytes_eq_refl a)

pub values_of-set_header_ci :
    (field value n : List ℕ) (r : HttpRequest)
    → values_of n (set_header_ci field value r).headers
      ≡ (if iequals field n then value ∷ [] else values_of n r.headers)
unfolding set_header_ci
values_of-set_header_ci field value n r = ground (
  arith,
  values_of-erase_ci field field r.headers,
  iequals_refl field,
  values_of-put field value n (erase_ci field r.headers),
  values_of-erase_ci field n r.headers,
)

-- In the list of an HTTP/2 message.
unfoldable pub header_values : List ℕ → List Header → List (List ℕ)
header_values n [] = []
header_values n (h ∷ hs) =
    let rest = header_values n hs in if iequals h.name n then h.value ∷ rest else rest

-- All but the first.
unfoldable pub later : List (List ℕ) → List (List ℕ)
later [] = []
later (v ∷ vs) = vs

pub header_values-del_header :
    (name n : List ℕ) (hs : List Header)
    → header_values n (del_header name hs) ≡ (if iequals name n then [] else header_values n hs)
unfolding header_values del_header
header_values-del_header name n [] = ground arith
header_values-del_header name n (h ∷ hs) = elim (Bool-cases (iequals h.name name)) [
  | inl e ↦ ground (arith, e, header_values-del_header name n hs, iequals_trans h.name name n e)
  | inr e ↦ elim (Bool-cases (iequals name n)) [
    | inl e' ↦ ground (
      arith,
      e,
      e',
      header_values-del_header name n hs,
      iequals_trans name n h.name e',
      iequals_comm name h.name,
      iequals_comm n h.name,
    )
    | inr e' ↦ ground (arith, e, e', header_values-del_header name n hs)
  ]
]

pub header_values-set_header :
    (name value n : List ℕ) (hs : List Header)
    → header_values n (set_header name value hs)
      ≡ (if iequals name n then value ∷ later (header_values n hs) else header_values n hs)
unfolding header_values set_header later
header_values-set_header name value n [] = refl
header_values-set_header name value n (h ∷ hs) = elim (Bool-cases (iequals h.name name)) [
  | inl e ↦ ground (arith, e, iequals_trans h.name name n e)
  | inr e ↦ elim (Bool-cases (iequals name n)) [
    | inl e' ↦ ground (
      arith,
      e,
      e',
      header_values-set_header name value n hs,
      iequals_trans name n h.name e',
      iequals_comm name h.name,
      iequals_comm n h.name,
    )
    | inr e' ↦ ground (arith, e, e', header_values-set_header name value n hs)
  ]
]

-- The value of the last setting of a name.
last_set : List ℕ → List (List ℕ × List ℕ) → Option (List ℕ)
last_set n [] = none
last_set n ((k, v) ∷ kvs) = elim (last_set n kvs) [
  | none ↦ if iequals k n then some v else none
  | some w ↦ some w
]

mentions : List ℕ → List (List ℕ) → Bool
mentions n [] = false
mentions n (k ∷ ks) = iequals k n || mentions n ks

-- What a rule asks for in a map: nothing under a name that it deletes, else the value of the last
-- setting of the name alone, else the values that were there.
unfoldable pub rewritten_map :
    List (List ℕ × List ℕ) → List (List ℕ) → List ℕ → List (List ℕ) → List (List ℕ)
unfolding last_set mentions
rewritten_map sets dels n old =
    if mentions n dels then [] else (elim (last_set n sets) [ none ↦ old | some v ↦ v ∷ [] ])

-- In a list the value of the last setting takes the place of the first value, and the later entries
-- of the name keep theirs.
unfoldable pub rewritten_list :
    List (List ℕ × List ℕ) → List (List ℕ) → List ℕ → List (List ℕ) → List (List ℕ)
unfolding last_set mentions
rewritten_list sets dels n old =
    if mentions n dels then [] else (elim (last_set n sets) [ none ↦ old | some v ↦ v ∷ later old ])

header_values-set_headers :
    (kvs : List (List ℕ × List ℕ)) (n : List ℕ) (hs : List Header)
    → header_values n (set_headers kvs hs) ≡ rewritten_list kvs [] n (header_values n hs)
unfolding set_headers rewritten_list later
header_values-set_headers [] n hs = refl
header_values-set_headers ((k, v) ∷ kvs) n hs = elim (Option-cases (last_set n kvs)) [
  | inl e ↦ ground (
    arith,
    e,
    header_values-set_headers kvs n (set_header k v hs),
    header_values-set_header k v n hs,
  )
  | inr (w, e) ↦ ground (
    arith,
    e,
    header_values-set_headers kvs n (set_header k v hs),
    header_values-set_header k v n hs,
  )
]

header_values-del_headers :
    (ks : List (List ℕ)) (n : List ℕ) (hs : List Header)
    → header_values n (del_headers ks hs) ≡ (if mentions n ks then [] else header_values n hs)
unfolding del_headers mentions
header_values-del_headers [] n hs = refl
header_values-del_headers (k ∷ ks) n hs =
    ground
      (arith, header_values-del_headers ks n (del_header k hs), header_values-del_header k n hs)

values_of-set_headers_ci :
    (kvs : List (List ℕ × List ℕ)) (n : List ℕ) (r : HttpRequest)
    → values_of n (set_headers_ci kvs r).headers ≡ rewritten_map kvs [] n (values_of n r.headers)
unfolding set_headers_ci rewritten_map
values_of-set_headers_ci [] n r = refl
values_of-set_headers_ci ((k, v) ∷ kvs) n r = elim (Option-cases (last_set n kvs)) [
  | inl e ↦ ground (
    arith,
    e,
    values_of-set_headers_ci kvs n (set_header_ci k v r),
    values_of-set_header_ci k v n r,
  )
  | inr (w, e) ↦ ground (arith, e, values_of-set_headers_ci kvs n (set_header_ci k v r))
]

values_of-remove_headers_ci :
    (ks : List (List ℕ)) (n : List ℕ) (r : HttpRequest)
    → values_of n (remove_headers_ci ks r).headers
      ≡ (if mentions n ks then [] else values_of n r.headers)
unfolding remove_headers_ci remove_header_ci mentions
values_of-remove_headers_ci [] n r = refl
values_of-remove_headers_ci (k ∷ ks) n r = ground (
  arith,
  values_of-remove_headers_ci ks n (remove_header_ci k r),
  values_of-erase_ci k n r.headers,
)

-- The values in the list behind a pointer.
abbrev pub values_behind : List ℕ → Option (List Header) → Option (List (List ℕ))
values_behind n none = none
values_behind n (some hs) = some (header_values n hs)

-- What a rule leaves under each header name, whatever its case, is what it asks for. In the map of an
-- HTTP/1 request: no entry if the rule deletes the name, one entry with the value of the last setting if
-- it sets the name, and else the entries as they were. In the list of an HTTP/2 message, for the request
-- part of the rule and for its response part: the same, but a name that is set keeps its other entries,
-- and only the first takes the value.
pub rewrite-values :
    (r : RewriteRule) (req : HttpRequest) (hs : List Header) (body : Option (List ℕ)) (n : List ℕ)
    → (values_of n (rewrite_http1 r req).1.headers
        ≡ rewritten_map r.req_set_headers r.req_del_headers n (values_of n req.headers))
      × (values_behind n
            (rewrite_parts r.req_set_headers r.req_del_headers r.req_body_replaces (some hs) body).1
          ≡ some (rewritten_list r.req_set_headers r.req_del_headers n (header_values n hs)))
      × (values_behind n
            (rewrite_parts r.resp_set_headers r.resp_del_headers r.resp_body_replaces
              (some hs)
              body).1
          ≡ some (rewritten_list r.resp_set_headers r.resp_del_headers n (header_values n hs)))
unfolding rewrite_http1 rewrite_parts rewrite_headers set_body rewritten_map rewritten_list
rewrite-values r req hs body n = ground (
  arith,
  values_of-remove_headers_ci r.req_del_headers n (set_headers_ci r.req_set_headers req),
  values_of-set_headers_ci r.req_set_headers n req,
  header_values-del_headers r.req_del_headers n (set_headers r.req_set_headers hs),
  header_values-set_headers r.req_set_headers n hs,
  header_values-del_headers r.resp_del_headers n (set_headers r.resp_set_headers hs),
  header_values-set_headers r.resp_set_headers n hs,
)
