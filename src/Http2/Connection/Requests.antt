-- ===== src/Http2/Connection/Requests.antt =====
-- Which requests Http2Connection hands on.
use linux_highperf_proxy.Base.{
  ℕ, ◌^◌, ◌<◌, ◌≡◌, ◌≢◌, refl, sym, ap, ◌∙◌, List, [], ◌∷◌, ◌++◌, none, some, inl, inr, ◌⊎◌,
  Bool-cases, Bool, true, length, append-nil, arith, All,
}
use linux_highperf_proxy.Base.Outcome.{ok, failed}
use linux_highperf_proxy.Hpack.StaticTable.{Header}
use linux_highperf_proxy.Hpack.Codec
use linux_highperf_proxy.Hpack.Codec.{encode_no_index}
use linux_highperf_proxy.Hpack.Codec.RoundTrip.{Fits, decode-encode_no_index}
use linux_highperf_proxy.Http2.Frame.{k_headers, k_data, write_frame, parse_one_frame}
use linux_highperf_proxy.Http2.Frame.RoundTrip.{IsWire, parse_one_frame-write_frame}
use linux_highperf_proxy.Http2.Stream.{
  StreamState, new_stream, Request, lookup, insert, erase, stream_or_new, set_pseudos, set_pseudo,
  request_of, lookup-insert, lookup-erase,
}
use linux_highperf_proxy.Http2.Connection.{
  Connection, request, emit, frame_header, flag, unpad, skip_priority, put_stream, try_emit_request,
  store_headers, finish_headers, handle_headers, handle_data, handle_frame, on_data,
}
use linux_highperf_proxy.Http2.Connection.Feed.{on_data_one_frame}
use linux_highperf_proxy.Http2.Connection.Handlers.{handle_frame-input}

-- The request that a list of headers makes on stream `id`, with a body.
pub request_from : ℕ → List Header → List ℕ → Request
request_from id hs body =
    request_of id (set_pseudos hs (record new_stream { headers = hs; body = body }))

-- A stream that has both its ends in the map is taken out, and its request handed on.
try_emit_request_done :
    (id : ℕ) (st : StreamState) (c : Connection)
    → lookup id c.streams ≡ some st
    → st.got_end_headers ≡ true
    → st.got_end_stream ≡ true
    → c.has_req ≡ true
    → try_emit_request id c ≡ record c {
      streams = erase id c.streams;
      events = c.events ++ (request (request_of id st) ∷ []);
    }
unfolding try_emit_request emit
try_emit_request_done id st c e h s r = ground (arith, e)

-- A stream with other marks and another block.
abbrev marked : List ℕ → Bool → Bool → StreamState → StreamState
marked block x y st = record st { header_block = block; got_end_headers = x; got_end_stream = y }

set_pseudo-marked :
    (h : Header) (block : List ℕ) (x y : Bool) (st : StreamState)
    → set_pseudo h (marked block x y st) ≡ marked block x y (set_pseudo h st)
unfolding set_pseudo
set_pseudo-marked h block x y st = ground arith

-- The pseudo-headers set four texts, and leave the marks and the block alone.
set_pseudos-marked :
    (hs : List Header) (block : List ℕ) (x y : Bool) (st : StreamState)
    → set_pseudos hs (marked block x y st) ≡ marked block x y (set_pseudos hs st)
unfolding set_pseudos
set_pseudos-marked [] block x y st = refl
set_pseudos-marked (h ∷ hs) block x y st =
    ap (set_pseudos hs) (set_pseudo-marked h block x y st)
    ∙ set_pseudos-marked hs block x y (set_pseudo h st)

lookup-insert_self :
    (id : ℕ) (st : StreamState) (m : List (ℕ × StreamState)) → lookup id (insert id st m) ≡ some st
lookup-insert_self id st m = ground (arith, lookup-insert id id st m)

-- A HEADERS frame with END_HEADERS on a new stream, with END_STREAM or without.
handle_headers_new :
    (id flags len : ℕ) (block : List ℕ) (c : Connection)
    → id ≢ 0
    → lookup id c.streams ≡ none
    → (flags ≡ 0x4) ⊎ (flags ≡ 0x5)
    → handle_headers (frame_header len k_headers flags id) block c
      ≡ finish_headers id
          (record new_stream { got_end_stream = flag flags 0x1; header_block = block })
          c
unfolding handle_headers unpad skip_priority stream_or_new
handle_headers_new id flags len block c ne fresh (inl e) = rw e (ground (arith, fresh))
handle_headers_new id flags len block c ne fresh (inr e) = rw e (ground (arith, fresh))

-- A DATA frame with END_STREAM, and without padding, on a stream that is there.
handle_data_last :
    (id len : ℕ) (body : List ℕ) (st : StreamState) (c : Connection)
    → id ≢ 0
    → lookup id c.streams ≡ some st
    → handle_data (frame_header len k_data 0x1 id) body c
      ≡ try_emit_request id
          (put_stream id (record st { got_end_stream = true; body = st.body ++ body }) c)
unfolding handle_data unpad stream_or_new
handle_data_last id len body st c ne there = elim (Bool-cases st.got_end_stream) [
  | inl e ↦ ground (arith, there, e)
  | inr e ↦ ground (arith, there, e)
]

finish_headers-failed :
    (id : ℕ) (st : StreamState) (c : Connection)
    → (Codec.decode c.hpack st.header_block).1 ≡ failed
    → finish_headers id st c
      ≡ put_stream id
          (record st { got_end_headers = true })
          (record c { hpack = (Codec.decode c.hpack st.header_block).0 })
unfolding finish_headers store_headers
finish_headers-failed id st c bad = rw bad

finish_headers_ok :
    (id : ℕ) (st : StreamState) (hs : List Header) (c : Connection)
    → Codec.decode c.hpack st.header_block ≡ (c.hpack, ok hs)
    → finish_headers id st c
      ≡ try_emit_request id (
          put_stream id
            (record (set_pseudos hs (record st { got_end_headers = true; headers = hs })) {
              header_block = [];
            })
            c)
unfolding finish_headers store_headers
finish_headers_ok id st hs c e = rw e

-- A header block that does not decode, in a HEADERS frame with END_HEADERS, is followed by a DATA
-- frame with END_STREAM: the stream, which was new, is handed on as a request GET / with no headers.
pub undecodable_headers_emit :
    (id : ℕ) (block body : List ℕ) (c : Connection)
    → id ≢ 0
    → lookup id c.streams ≡ none
    → c.has_req ≡ true
    → (Codec.decode c.hpack block).1 ≡ failed
    → (handle_data
        (frame_header (length body) k_data 0x1 id)
        body
        (handle_headers (frame_header (length block) k_headers 0x4 id) block c)).events
      ≡ c.events ++ (request (request_from id [] body) ∷ [])
unfolding request_from request_of set_pseudos
undecodable_headers_emit id block body c ne fresh req bad =
    let st : StreamState = record new_stream { header_block = block; got_end_headers = true } in
    let st' : StreamState = record st { got_end_stream = true; body = body } in
    let c1 : Connection = record c { hpack = (Codec.decode c.hpack block).0 } in
    let c2 : Connection = put_stream id st c1 in
    rw (handle_headers_new id 0x4 (length block) block c ne fresh (inl refl)) (
      rw (finish_headers-failed id (record new_stream { header_block = block }) c bad) (
        rw (handle_data_last id (length body) body st c2 ne (lookup-insert_self id st c.streams)) (
          rw
            (try_emit_request_done id st' (put_stream id st' c2)
              (lookup-insert_self id st' c2.streams) refl refl req)
            refl)))

handle_headers_request :
    (id len : ℕ) (hs : List Header) (c : Connection)
    → id ≢ 0
    → lookup id c.streams ≡ none
    → c.has_req ≡ true
    → All Fits hs
    → let c' = handle_headers (frame_header len k_headers 0x5 id) (encode_no_index hs []) c in
      (c'.events ≡ c.events ++ (request (request_from id hs []) ∷ []))
      × (lookup id c'.streams ≡ none)
      × (c'.hpack ≡ c.hpack)
unfolding request_from request_of
handle_headers_request id len hs c ne fresh req fits =
    let block = encode_no_index hs [] in
    let st : StreamState = record new_stream { got_end_stream = true; header_block = block } in
    let named = set_pseudos hs (record new_stream { headers = hs }) in
    let st' = marked [] true true named in
    let done =
      try_emit_request_done id st' (put_stream id st' c) (lookup-insert_self id st' c.streams) refl
        refl req in
    let whole =
      handle_headers_new id 0x5 len block c ne fresh (inr refl)
      ∙ finish_headers_ok id st hs c (decode-encode_no_index c.hpack hs fits)
      ∙ ap (λ z. try_emit_request id (put_stream id (record z { header_block = [] }) c))
          (set_pseudos-marked hs block true true (record new_stream { headers = hs }))
      ∙ done in
    (
      ap (λ d. d.events) whole,
      ap (λ d. lookup id d.streams) whole
          ∙ ground (arith, lookup-erase id id (insert id st' c.streams)),
      ap (λ d. d.hpack) whole,
    )

handle_frame_headers :
    (len flags id : ℕ) (payload : List ℕ) (c : Connection)
    → handle_frame (frame_header len k_headers flags id) payload c
      ≡ handle_headers (frame_header len k_headers flags id) payload c
unfolding handle_frame
handle_frame_headers len flags id payload c = refl

-- The bytes of one HEADERS frame with END_HEADERS and END_STREAM, on a stream that is not open, with
-- the block that EncodeNoIndex writes for some headers: OnData hands on one request with these
-- headers, and afterwards the stream is gone, the header table unchanged and the buffer empty.
pub on_data_request :
    (id : ℕ) (hs : List Header) (c : Connection)
    → id ≢ 0
    → id < 2 ^ 31
    → c.preface_done ≡ true
    → c.input ≡ []
    → lookup id c.streams ≡ none
    → c.has_req ≡ true
    → All Fits hs
    → length (encode_no_index hs []) < 2 ^ 24
    → let block = encode_no_index hs [] in
      let c' = on_data (write_frame (frame_header (length block) k_headers 0x5 id) block) c in
      (c'.events ≡ c.events ++ (request (request_from id hs []) ∷ []))
      × (lookup id c'.streams ≡ none)
      × (c'.hpack ≡ c.hpack)
      × (c'.input ≡ [])
on_data_request id hs c ne word done empty fresh req fits short =
    let block = encode_no_index hs [] in
    let h = frame_header (length block) k_headers 0x5 id in
    let wire : IsWire h = omega arith in
    let frame = parse_one_frame-write_frame h block [] wire refl in
    let bytes = append-nil (write_frame h block) in
    let one =
      on_data_one_frame (write_frame h block) c done empty
        (ap parse_one_frame (sym bytes) ∙ frame) in
    let (e, gone, table) = handle_headers_request id (length block) hs c ne fresh req fits in
    let handled = one ∙ handle_frame_headers (length block) 0x5 id block c in
    (
      ap (λ d. d.events) handled ∙ e,
      ap (λ d. lookup id d.streams) handled ∙ gone,
      ap (λ d. d.hpack) handled ∙ table,
      ap (λ d. d.input) one ∙ handle_frame-input h block c ∙ empty,
    )
