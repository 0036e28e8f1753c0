-- ===== src/Http2/Connection.antt =====
-- Http2Connection: the state of a connection and the handlers of its frames. What the connection
-- hands to its callbacks is a list of events, oldest first; a callback that sends a response while
-- it runs changes nothing of this state.
pub mod Handlers
pub mod Feed
pub mod Requests
pub mod Valid
use linux_highperf_proxy.Base.{
  ℕ, zero, suc, ◌+◌, ◌-◌, ◌*◌, ◌/◌, ◌%◌, ◌^◌, List, [], ◌∷◌, ◌++◌, Option, none, some, ◌>>=◌, Bool,
  true, false, not, ◌||◌, ltb, ◌==◌, if◌then◌else◌, length, take, drop,
}
use linux_highperf_proxy.Base.Bytes.{bytes_eq}
use linux_highperf_proxy.Base.Outcome.{Outcome, ok, failed, fault, stuck}
use linux_highperf_proxy.Hpack.StaticTable.{Header}
use linux_highperf_proxy.Hpack.Table.{Table, update_max_size}
use linux_highperf_proxy.Hpack.Table
use linux_highperf_proxy.Hpack.Codec
use linux_highperf_proxy.Http2.Frame.{
  FrameHeader, k_data, k_headers, k_settings, k_ping, k_continuation, connection_preface,
  write_frame, read32, parse_one_frame,
}
use linux_highperf_proxy.Http2.Stream.{
  StreamState, Streams, Request, lookup, insert, erase, stream_or_new, set_pseudos, request_of,
}

-- A call of sendCb_ or of reqCb_.
pub data Event : Type 0 where
  sent : List ℕ → Event
  request : Request → Event

pub record Connection : Type 0 where
  pub preface_done : Bool
  pub input : List ℕ
  pub hpack : Table
  pub streams : Streams
  pub has_send : Bool
  pub has_req : Bool
  pub events : List Event

-- Reset(): the callbacks stay.
unfoldable pub reset : Connection → Connection
reset c = record c { preface_done = false; input = []; hpack = Table.init; streams = [] }

unfoldable pub emit : Event → Connection → Connection
emit e c = record c { events = c.events ++ (e ∷ []) }

-- sendCb_(bytes), if it is set.
unfoldable pub send : List ℕ → Connection → Connection
send bytes c = if c.has_send then emit (sent bytes) c else c

abbrev pub frame_header : ℕ → ℕ → ℕ → ℕ → FrameHeader
frame_header len kind flags id = record { len = len; kind = kind; flags = flags; stream_id = id }

unfoldable pub send_settings : Connection → Connection
send_settings = send (write_frame (frame_header 0 k_settings 0 0) [])

unfoldable pub send_settings_ack : Connection → Connection
send_settings_ack = send (write_frame (frame_header 0 k_settings 0x1 0) [])

unfoldable pub send_ping_ack : List ℕ → Connection → Connection
send_ping_ack opaque8 = send (write_frame (frame_header 8 k_ping 0x1 0) opaque8)

-- Flags 0x1, 0x4, 0x8 and 0x20.
abbrev pub flag : ℕ → ℕ → Bool
flag h mask = h / mask % 2 == 1

-- A finished stream leaves the map, and its request goes to the callback, if there is one.
unfoldable pub try_emit_request : ℕ → Connection → Connection
try_emit_request id c = elim (lookup id c.streams) [
  | none ↦ c
  | some st ↦
      let c' = record c { streams = erase id c.streams } in
      if not st.got_end_headers
      then c
      else if not st.got_end_stream
      then c
      else if c.has_req
      then emit (request (request_of id st)) c'
      else c'
]

abbrev pub put_stream : ℕ → StreamState → Connection → Connection
put_stream id st c = record c { streams = insert id st c.streams }

-- The parameters of a SETTINGS frame, six bytes each; only HEADER_TABLE_SIZE (1) is used.
unfoldable pub settings_loop : List ℕ → Table → Table
settings_loop (i1 ∷ i2 ∷ v1 ∷ v2 ∷ v3 ∷ v4 ∷ rest) t =
    settings_loop rest
      (if (i1 * 2 ^ 8 + i2) % 2 ^ 16 == 1 then update_max_size (read32 v1 v2 v3 v4) t else t)
settings_loop _ t = t

unfoldable pub handle_settings : FrameHeader → List ℕ → Connection → Connection
handle_settings h payload c =
    if (not (h.stream_id == 0)) || flag h.flags 0x1
    then c
    else send_settings_ack (record c { hpack = settings_loop payload c.hpack })

unfoldable pub handle_ping : FrameHeader → List ℕ → Connection → Connection
handle_ping h payload c =
    if (not (h.stream_id == 0)) || flag h.flags 0x1
    then c
    else if length payload == 8
    then send_ping_ack payload c
    else c

-- PADDED: the length of the padding stands in front, the padding behind.
unfoldable pub unpad : ℕ → List ℕ → Option (List ℕ)
unpad flags payload =
    if flag flags 0x8
    then (elim payload [
      | [] ↦ none
      | pad ∷ rest ↦ if ltb (length rest) pad then none else some (take (length rest - pad) rest)
    ])
    else some payload

-- PRIORITY: five bytes in front.
unfoldable pub skip_priority : ℕ → List ℕ → Option (List ℕ)
skip_priority flags fragment =
    if flag flags 0x20
    then if ltb (length fragment) 5 then none else some (drop 5 fragment)
    else some fragment

-- What HEADERS and CONTINUATION do on END_HEADERS. Where the block does not decode, the stream keeps
-- its END_HEADERS mark and its block, and the table what the decoder made of it.
unfoldable pub store_headers : ℕ → StreamState → Outcome (List Header) → Connection → Connection
store_headers id st (ok hdrs) c =
    let named = set_pseudos hdrs (record st { headers = hdrs }) in
    try_emit_request id (put_stream id (record named { header_block = [] }) c)
store_headers id st failed c = put_stream id st c
store_headers id st fault c = put_stream id st c
store_headers id st stuck c = put_stream id st c

unfoldable pub finish_headers : ℕ → StreamState → Connection → Connection
finish_headers id st c =
    let decoded = Codec.decode c.hpack st.header_block in
    store_headers id (record st { got_end_headers = true }) decoded.1
      (record c { hpack = decoded.0 })

unfoldable pub handle_headers : FrameHeader → List ℕ → Connection → Connection
handle_headers h payload c =
    let id = h.stream_id in
    let st = stream_or_new id c.streams in
    if id == 0 then c else (elim (unpad h.flags payload >>= skip_priority h.flags) [
      | none ↦ put_stream id st c
      | some fragment ↦
          let st' = record st {
            got_end_stream = st.got_end_stream || flag h.flags 0x1;
            header_block = st.header_block ++ fragment;
          } in
          if flag h.flags 0x4 then finish_headers id st' c else put_stream id st' c
    ])

unfoldable pub handle_continuation : FrameHeader → List ℕ → Connection → Connection
handle_continuation h payload c =
    let id = h.stream_id in
    if id == 0 then c else (elim (lookup id c.streams) [
      | none ↦ c
      | some st ↦
          let st' = record st { header_block = st.header_block ++ payload } in
          if flag h.flags 0x4 then finish_headers id st' c else put_stream id st' c
    ])

unfoldable pub handle_data : FrameHeader → List ℕ → Connection → Connection
handle_data h payload c =
    let id = h.stream_id in
    let st = stream_or_new id c.streams in
    if id == 0 then c else (elim (unpad h.flags payload) [
      | none ↦ put_stream id st c
      | some fragment ↦
          let st' = record st {
            got_end_stream = st.got_end_stream || flag h.flags 0x1;
            body = st.body ++ fragment;
          } in
          try_emit_request id (put_stream id st' c)
    ])

-- The switch on the type: other types are passed over.
unfoldable pub handle_frame : FrameHeader → List ℕ → Connection → Connection
handle_frame h payload c =
    if h.kind == k_settings
    then handle_settings h payload c
    else if h.kind == k_headers
    then handle_headers h payload c
    else if h.kind == k_continuation
    then handle_continuation h payload c
    else if h.kind == k_data
    then handle_data h payload c
    else if h.kind == k_ping
    then handle_ping h payload c
    else c

-- The loop of parseFrames. A frame takes nine bytes at least, so as much fuel as bytes is enough.
unfoldable pub parse_loop : ℕ → Connection → Connection
parse_loop zero c = c
parse_loop (suc fuel) c = elim (parse_one_frame c.input) [
  | none ↦ c
  | some (h, payload, rest) ↦ parse_loop fuel (handle_frame h payload (record c { input = rest }))
]

unfoldable pub parse_frames : Connection → Connection
parse_frames c = parse_loop (length c.input) c

-- OnData, with the preface in front of the first frame.
unfoldable pub on_preface : Connection → Connection
on_preface c =
    if ltb (length c.input) 24
    then c
    else if bytes_eq (take 24 c.input) connection_preface
    then parse_frames (send_settings (record c { input = drop 24 c.input; preface_done = true }))
    else record c { input = [] }

unfoldable pub on_data : List ℕ → Connection → Connection
on_data [] c = c
on_data (b ∷ bs) c =
    let c' = record c { input = c.input ++ (b ∷ bs) } in
    if c.preface_done then parse_frames c' else on_preface c'
