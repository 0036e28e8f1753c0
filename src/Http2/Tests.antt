-- ===== src/Http2/Tests.antt =====
-- Http2Connection at concrete inputs; the theorems at inputs that meet their hypotheses.
use linux_highperf_proxy.Base.{
  ℕ, ◌^◌, ◌<◌, ◌≡◌, refl, List, [], ◌∷◌, ◌++◌, some, none, true, false, length, arith, All,
}
use linux_highperf_proxy.Base.Bytes.{codes}
use linux_highperf_proxy.Base.Decimal.{to_string}
use linux_highperf_proxy.Base.Outcome.{failed}
use linux_highperf_proxy.Hpack.StaticTable.{Header, header}
use linux_highperf_proxy.Hpack.Table.{init, get_by_index}
use linux_highperf_proxy.Hpack.Table.Evict.{IsValid, init-IsValid}
use linux_highperf_proxy.Hpack.Integer.{decode_integer, encode_integer}
use linux_highperf_proxy.Hpack.Codec
use linux_highperf_proxy.Hpack.Codec.{
  decode_indexed, decode_field, decode_loop, encode_string_raw, encode_no_index,
}
use linux_highperf_proxy.Hpack.Codec.RoundTrip.{Fits}
use linux_highperf_proxy.Http2.Frame.{k_data, k_headers, k_ping, write_frame, parse_one_frame}
use linux_highperf_proxy.Http2.Frame.RoundTrip.{IsWire, parse_one_frame-write_frame}
use linux_highperf_proxy.Http2.Stream.{lookup}
use linux_highperf_proxy.Http2.Connection.{
  Connection, sent, request, frame_header, handle_headers, handle_data, on_data,
}
use linux_highperf_proxy.Http2.Connection.Feed.{on_data-append}
use linux_highperf_proxy.Http2.Connection.Requests.{
  request_from, on_data_request, undecodable_headers_emit,
}
use linux_highperf_proxy.Http2.Connection.Valid.{on_data-IsValid}
use linux_highperf_proxy.Http2.Send.{response_headers, send_response}
use linux_highperf_proxy.Http2.Send.Frames.{BeginsWithHeaders, send_response_read}

-- A connection behind its preface, with both callbacks.
abbrev ready : Connection
ready = record {
  preface_done = true;
  input = [];
  hpack = init;
  streams = [];
  has_send = true;
  has_req = true;
  events = [];
}

abbrev ping : List ℕ
ping = write_frame (frame_header 8 k_ping 0 0) (1 ∷ 2 ∷ 3 ∷ 4 ∷ 5 ∷ 6 ∷ 7 ∷ 8 ∷ [])

on_data-append_example : on_data (ping ++ ping) ready ≡ on_data ping (on_data ping ready)
on_data-append_example = on_data-append ping ping ready refl

on_data-IsValid_example : IsValid (on_data ping ready).hpack
on_data-IsValid_example = on_data-IsValid ping ready init-IsValid

ping-IsWire : IsWire (frame_header 3 k_ping 0x1 7)
ping-IsWire = record {
  len_fits = omega arith;
  kind_fits = omega arith;
  flags_fits = omega arith;
  stream_fits = omega arith;
}

parse_one_frame-write_frame_example :
    parse_one_frame (write_frame (frame_header 3 k_ping 0x1 7) (1 ∷ 2 ∷ 3 ∷ []) ++ (9 ∷ []))
    ≡ some (frame_header 3 k_ping 0x1 7, 1 ∷ 2 ∷ 3 ∷ [], 9 ∷ [])
parse_one_frame-write_frame_example =
    parse_one_frame-write_frame (frame_header 3 k_ping 0x1 7) (1 ∷ 2 ∷ 3 ∷ []) (9 ∷ []) ping-IsWire
      refl

abbrev get_headers : List Header
get_headers = header (codes ":method") (codes "PUT") ∷ header (codes "a") (codes "b") ∷ []

get_block_short : length (encode_no_index get_headers []) < 2 ^ 24
unfolding encode_no_index encode_string_raw encode_integer
get_block_short = omega arith

nothing_open : (id : ℕ) → lookup id [] ≡ none
unfolding lookup
nothing_open id = refl

on_data_request_example :
    let block = encode_no_index get_headers [] in
    let c = on_data (write_frame (frame_header (length block) k_headers 0x5 1) block) ready in
    (c.events ≡ request (request_from 1 get_headers []) ∷ [])
    × (lookup 1 c.streams ≡ none)
    × (c.hpack ≡ init)
    × (c.input ≡ [])
on_data_request_example =
    on_data_request 1 get_headers ready (omega arith) (omega arith) refl refl (nothing_open 1) refl
      ((omega arith, omega arith), ((omega arith, omega arith), tt)) get_block_short

-- An index of zero is no header.
index_zero_fails : (Codec.decode init (0x80 ∷ [])).1 ≡ failed
unfolding Codec.decode decode_loop decode_field decode_indexed decode_integer get_by_index
index_zero_fails = refl

undecodable_headers_emit_example :
    (handle_data
      (frame_header 1 k_data 0x1 5)
      (65 ∷ [])
      (handle_headers (frame_header 1 k_headers 0x4 5) (0x80 ∷ []) ready)).events
    ≡ request (request_from 5 [] (65 ∷ [])) ∷ []
undecodable_headers_emit_example =
    undecodable_headers_emit 5 (0x80 ∷ []) (65 ∷ []) ready (omega arith) (nothing_open 5) refl
      index_zero_fails

abbrev hello : List ℕ
hello = codes "hello"

hello-Fits : All Fits (response_headers 200 [] hello)
unfolding to_string
hello-Fits = ((omega arith, omega arith), ((omega arith, omega arith), tt))

hello_short : length (encode_no_index (response_headers 200 [] hello) []) < 2 ^ 24
unfolding to_string encode_no_index encode_string_raw encode_integer
hello_short = omega arith

send_response_read_example :
    (bytes : List ℕ) × (rest : List ℕ) × ((send_response 1 200 [] hello true ready).events
      ≡ sent bytes ∷ [])
    × BeginsWithHeaders 1 (response_headers 200 [] hello) false bytes rest
    × (parse_one_frame rest ≡ some (frame_header 5 k_data 0x1 1, hello, []))
send_response_read_example =
    send_response_read 1 200 [] hello true ready refl (omega arith) (omega arith) hello-Fits
      hello_short (omega arith)
