-- ===== src/Http2/Send.antt =====
-- Http2Connection::SendResponse, SendHeaders, SendData and SendTrailers.
pub mod Frames
use linux_highperf_proxy.Base.{
  ℕ, ◌+◌, ◌%◌, ◌^◌, List, [], ◌∷◌, ◌++◌, Bool, true, false, not, ◌||◌, ◌&&◌, ◌==◌, if◌then◌else◌,
  length,
}
use linux_highperf_proxy.Base.Bytes.{codes}
use linux_highperf_proxy.Base.Decimal.{to_string}
use linux_highperf_proxy.Hpack.StaticTable.{Header, header}
use linux_highperf_proxy.Hpack.Codec.{encode_no_index}
use linux_highperf_proxy.Http2.Frame.{k_data, k_headers, write_frame}
use linux_highperf_proxy.Http2.Connection.{Connection, send, frame_header}

-- `body.empty()`
abbrev pub is_empty : List ℕ → Bool
is_empty [] = true
is_empty (b ∷ bs) = false

-- static_cast<uint32_t>(size)
abbrev pub size32 : List ℕ → ℕ
size32 xs = length xs % 2 ^ 32

-- The headers of a response: the status and the length come first.
abbrev pub response_headers : ℕ → List Header → List ℕ → List Header
response_headers status headers body =
    header (codes ":status") (to_string status)
    ∷ header (codes "content-length") (to_string (length body))
    ∷ headers

-- A HEADERS frame with END_HEADERS, and END_STREAM if `fin`.
abbrev pub headers_frame : ℕ → List Header → Bool → List ℕ
headers_frame id hs fin =
    let block = encode_no_index hs [] in
    write_frame (frame_header (size32 block) k_headers (if fin then 0x5 else 0x4) id) block

-- A DATA frame, with END_STREAM if `fin`.
abbrev pub data_frame : ℕ → List ℕ → Bool → List ℕ
data_frame id body fin =
    write_frame (frame_header (size32 body) k_data (if fin then 0x1 else 0x0) id) body

-- The stream 0 carries no response.
unfoldable pub send_response : ℕ → ℕ → List Header → List ℕ → Bool → Connection → Connection
send_response id status headers body end_stream c =
    let hs = response_headers status headers body in
    let front = headers_frame id hs (end_stream && is_empty body) in
    let back = if is_empty body then [] else data_frame id body end_stream in
    if id == 0 then c else send (front ++ back) c

unfoldable pub send_headers : ℕ → ℕ → List Header → Bool → Connection → Connection
send_headers id status headers end_stream c =
    let hs = header (codes ":status") (to_string status) ∷ headers in
    if id == 0 then c else send (headers_frame id hs end_stream) c

unfoldable pub send_data : ℕ → List ℕ → Bool → Connection → Connection
send_data id body end_stream c = if id == 0 then c else send (data_frame id body end_stream) c

unfoldable pub send_trailers : ℕ → List Header → Connection → Connection
send_trailers id headers c = if id == 0 then c else send (headers_frame id headers true) c
