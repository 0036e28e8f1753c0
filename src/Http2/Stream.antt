-- ===== src/Http2/Stream.antt =====
-- Http2Connection::StreamState, the map of streams, and the requests that are built from them.
use linux_highperf_proxy.Base.{
  ℕ, ◌≡◌, arith, List, [], ◌∷◌, Option, none, some, Bool, false, ◌==◌, if◌then◌else◌,
}
use linux_highperf_proxy.Base.Bytes.{codes, bytes_eq}
use linux_highperf_proxy.Hpack.StaticTable.{Header}

pub record StreamState : Type 0 where
  pub header_block : List ℕ
  pub got_end_headers : Bool
  pub got_end_stream : Bool
  pub headers : List Header
  pub method : List ℕ
  pub path : List ℕ
  pub authority : List ℕ
  pub scheme : List ℕ
  pub body : List ℕ

abbrev pub new_stream : StreamState
new_stream = record {
  header_block = [];
  got_end_headers = false;
  got_end_stream = false;
  headers = [];
  method = [];
  path = [];
  authority = [];
  scheme = [];
  body = [];
}

-- Http2Connection::Request
pub record Request : Type 0 where
  pub stream_id : ℕ
  pub method : List ℕ
  pub path : List ℕ
  pub authority : List ℕ
  pub scheme : List ℕ
  pub headers : List Header
  pub body : List ℕ

-- streams_, a std::map, as an association list with at most one entry for a stream.
abbrev pub Streams : Type 0
Streams = List (ℕ × StreamState)

-- streams_.find(id)
unfoldable pub lookup : ℕ → Streams → Option StreamState
lookup id [] = none
lookup id ((i, st) ∷ m) = if i == id then some st else lookup id m

-- streams_[id] = st
unfoldable pub insert : ℕ → StreamState → Streams → Streams
insert id st [] = (id, st) ∷ []
insert id st ((i, s) ∷ m) = if i == id then (id, st) ∷ m else (i, s) ∷ insert id st m

-- streams_.erase(id)
unfoldable pub erase : ℕ → Streams → Streams
erase id [] = []
erase id ((i, s) ∷ m) = if i == id then erase id m else (i, s) ∷ erase id m

-- What `auto& st = streams_[id]` reads: a missing stream is made.
unfoldable pub stream_or_new : ℕ → Streams → StreamState
stream_or_new id m = elim (lookup id m) [ none ↦ new_stream | some st ↦ st ]

-- The pseudo-headers among the headers that were decoded.
unfoldable pub set_pseudo : Header → StreamState → StreamState
set_pseudo h st =
    if bytes_eq h.name (codes ":method")
    then record st { method = h.value }
    else if bytes_eq h.name (codes ":path")
    then record st { path = h.value }
    else if bytes_eq h.name (codes ":authority")
    then record st { authority = h.value }
    else if bytes_eq h.name (codes ":scheme")
    then record st { scheme = h.value }
    else st

unfoldable pub set_pseudos : List Header → StreamState → StreamState
set_pseudos [] st = st
set_pseudos (h ∷ hs) st = set_pseudos hs (set_pseudo h st)

abbrev pub or_default : List ℕ → List ℕ → List ℕ
or_default [] d = d
or_default (b ∷ bs) d = b ∷ bs

-- The request of a finished stream.
unfoldable pub request_of : ℕ → StreamState → Request
request_of id st = record {
  stream_id = id;
  method = or_default st.method (codes "GET");
  path = or_default st.path (codes "/");
  authority = st.authority;
  scheme = st.scheme;
  headers = st.headers;
  body = st.body;
}

pub lookup-insert :
    (id j : ℕ) (st : StreamState) (m : Streams)
    → lookup j (insert id st m) ≡ (if id == j then some st else lookup j m)
unfolding lookup insert
lookup-insert id j st [] = ground arith
lookup-insert id j st ((i, s) ∷ m) = ground (arith, lookup-insert id j st m)

pub lookup-erase :
    (id j : ℕ) (m : Streams) → lookup j (erase id m) ≡ (if id == j then none else lookup j m)
unfolding lookup erase
lookup-erase id j [] = ground arith
lookup-erase id j ((i, s) ∷ m) = ground (arith, lookup-erase id j m)
