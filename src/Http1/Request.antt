-- ===== src/Http1/Request.antt =====
-- include/proxy/protocol/HttpRequest.h: a request as the parser builds it.
use linux_highperf_proxy.Base.{
  ℕ, ◌+◌, List, [], ◌∷◌, ◌++◌, none, some, Bool, true, false, ◌&&◌, ◌||◌, leb, ◌==◌, if◌then◌else◌,
}
use linux_highperf_proxy.Base.Bytes.{codes, bytes_eq}
use linux_highperf_proxy.Base.Maps.{find, put, remove}

pub data Method : Type 0 where
  k_invalid : Method
  k_get : Method
  k_post : Method
  k_head : Method
  k_put : Method
  k_delete : Method

pub data Version : Type 0 where
  k_unknown : Version
  k_http10 : Version
  k_http11 : Version

-- headers_ is a std::map; the order of its keys shows nowhere here.
pub record HttpRequest : Type 0 where
  pub method : Method
  pub version : Version
  pub path : List ℕ
  pub query : List ℕ
  pub headers : List (List ℕ × List ℕ)
  pub body : List ℕ

unfoldable pub new_request : HttpRequest
new_request = record {
  method = k_invalid;
  version = k_unknown;
  path = [];
  query = [];
  headers = [];
  body = [];
}

-- setMethod: the method that it sets; it returns whether that is a valid one.
unfoldable pub method_of : List ℕ → Method
method_of m =
    if bytes_eq m (codes "GET")
    then k_get
    else if bytes_eq m (codes "POST")
    then k_post
    else if bytes_eq m (codes "HEAD")
    then k_head
    else if bytes_eq m (codes "PUT")
    then k_put
    else if bytes_eq m (codes "DELETE")
    then k_delete
    else k_invalid

unfoldable pub is_valid_method : Method → Bool
is_valid_method k_invalid = false
is_valid_method _ = true

unfoldable pub method_string : Method → List ℕ
method_string k_invalid = codes "UNKNOWN"
method_string k_get = codes "GET"
method_string k_post = codes "POST"
method_string k_head = codes "HEAD"
method_string k_put = codes "PUT"
method_string k_delete = codes "DELETE"

-- isspace in the C locale.
abbrev pub is_space : ℕ → Bool
is_space c = (c == 32) || (leb 9 c && leb c 13)

unfoldable pub trim_front : List ℕ → List ℕ
trim_front [] = []
trim_front (c ∷ cs) = let rest = trim_front cs in if is_space c then rest else c ∷ cs

-- A blank goes if nothing is left behind it.
unfoldable pub cons_trimmed : ℕ → List ℕ → List ℕ
cons_trimmed c [] = if is_space c then [] else c ∷ []
cons_trimmed c (d ∷ ds) = c ∷ d ∷ ds

unfoldable pub trim_back : List ℕ → List ℕ
trim_back [] = []
trim_back (c ∷ cs) = cons_trimmed c (trim_back cs)

-- addHeader, with the bytes before the colon and those behind it.
unfoldable pub add_header : List ℕ → List ℕ → HttpRequest → HttpRequest
add_header field after r = record r { headers = put field (trim_back (trim_front after)) r.headers }

-- "" for a missing field.
unfoldable pub get_header : List ℕ → HttpRequest → List ℕ
get_header field r = elim (find field r.headers) [ none ↦ [] | some v ↦ v ]

unfoldable pub set_header : List ℕ → List ℕ → HttpRequest → HttpRequest
set_header field value r = record r { headers = put field value r.headers }

unfoldable pub remove_header : List ℕ → HttpRequest → HttpRequest
remove_header field r = record r { headers = remove field r.headers }

unfoldable pub append_body : List ℕ → HttpRequest → HttpRequest
append_body bytes r = record r { body = r.body ++ bytes }

unfoldable pub lower_ascii : ℕ → ℕ
lower_ascii c = if leb 65 c && leb c 90 then c + 32 else c

-- Equality whatever the case of the letters.
unfoldable pub iequals : List ℕ → List ℕ → Bool
iequals [] [] = true
iequals (a ∷ as_) (b ∷ bs) = (lower_ascii a == lower_ascii b) && iequals as_ bs
iequals _ _ = false

-- Every entry whose key is the field in some case goes.
unfoldable pub erase_ci : List ℕ → List (List ℕ × List ℕ) → List (List ℕ × List ℕ)
erase_ci field [] = []
erase_ci field ((k, v) ∷ m) =
    let rest = erase_ci field m in if iequals k field then rest else (k, v) ∷ rest

unfoldable pub set_header_ci : List ℕ → List ℕ → HttpRequest → HttpRequest
set_header_ci field value r = record r { headers = put field value (erase_ci field r.headers) }

unfoldable pub remove_header_ci : List ℕ → HttpRequest → HttpRequest
remove_header_ci field r = record r { headers = erase_ci field r.headers }

unfoldable pub set_body : List ℕ → HttpRequest → HttpRequest
set_body bytes r = record r { body = bytes }

-- swap: both requests, each with what the other had.
unfoldable pub swap : HttpRequest → HttpRequest → HttpRequest × HttpRequest
swap r that = (that, r)
