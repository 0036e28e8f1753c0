-- ===== src/Http2/Send/Frames.antt =====
-- What a peer reads from the bytes that the Send functions write.
use linux_highperf_proxy.Base.{
  ℕ, ◌^◌, ◌<◌, ◌≡◌, ◌≢◌, refl, sym, ap, ◌∙◌, List, [], ◌∷◌, ◌++◌, some, Bool, true, false, ◌&&◌,
  if◌then◌else◌, length, append-nil, All, arith, Bool-cases, inl, inr, ◌==◌,
}
use linux_highperf_proxy.Base.Outcome.{ok}
use linux_highperf_proxy.Hpack.StaticTable.{Header}
use linux_highperf_proxy.Hpack.Table.{Table}
use linux_highperf_proxy.Hpack.Codec
use linux_highperf_proxy.Hpack.Codec.{encode_no_index}
use linux_highperf_proxy.Hpack.Codec.RoundTrip.{Fits, decode-encode_no_index}
use linux_highperf_proxy.Http2.Frame.{k_data, k_headers, parse_one_frame}
use linux_highperf_proxy.Http2.Frame.RoundTrip.{IsWire, parse_one_frame-write_frame}
use linux_highperf_proxy.Http2.Connection.{Connection, sent, send, emit, frame_header}
use linux_highperf_proxy.Http2.Send.{
  is_empty, size32, response_headers, headers_frame, data_frame, send_response,
}

-- Bytes that begin with a HEADERS frame for `id`, whose block gives `hs` and leaves any peer's table
-- alone; `rest` follows.
abbrev pub BeginsWithHeaders : ℕ → List Header → Bool → List ℕ → List ℕ → Type 0
BeginsWithHeaders id hs fin bytes rest =
    (block : List ℕ) × (parse_one_frame bytes
      ≡ some (frame_header (length block) k_headers (if fin then 0x5 else 0x4) id, block, rest))
    × ((t : Table) → Codec.decode t block ≡ (t, ok hs))

frame_header-IsWire :
    (len kind flags id : ℕ)
    → len < 2 ^ 24
    → kind < 256
    → id < 2 ^ 31
    → flags < 256
    → IsWire (frame_header len kind flags id)
frame_header-IsWire len kind flags id short small word low = record {
  len_fits = short;
  kind_fits = small;
  flags_fits = low;
  stream_fits = word;
}

headers_frame_lem :
    (id : ℕ) (hs : List Header) (fin : Bool) (rest : List ℕ)
    → id < 2 ^ 31
    → All Fits hs
    → length (encode_no_index hs []) < 2 ^ 24
    → BeginsWithHeaders id hs fin (headers_frame id hs fin ++ rest) rest
headers_frame_lem id hs fin rest word fits short =
    let block = encode_no_index hs [] in
    let n : size32 block ≡ length block = omega arith in
    let flags : (if fin then 0x5 else 0x4) < 256 = ground arith in
    let h = frame_header (length block) k_headers (if fin then 0x5 else 0x4) id in
    (
      block,
      rw n (
          parse_one_frame-write_frame h block rest
            (frame_header-IsWire _ _ _ id short (omega arith) word flags) refl),
      λ t. decode-encode_no_index t hs fits,
    )

data_frame_lem :
    (id : ℕ) (body : List ℕ) (fin : Bool) (rest : List ℕ)
    → id < 2 ^ 31
    → length body < 2 ^ 24
    → parse_one_frame (data_frame id body fin ++ rest)
      ≡ some (frame_header (length body) k_data (if fin then 0x1 else 0x0) id, body, rest)
data_frame_lem id body fin rest word short =
    let n : size32 body ≡ length body = omega arith in
    let flags : (if fin then 0x1 else 0x0) < 256 = ground arith in
    let h = frame_header (length body) k_data (if fin then 0x1 else 0x0) id in
    rw n (
      parse_one_frame-write_frame h body rest
        (frame_header-IsWire _ _ _ id short (omega arith) word flags) refl)

-- What SendResponse hands to the callback: the HEADERS frame, and the DATA frame if there is a body.
send_response_events :
    (id status : ℕ) (headers : List Header) (body : List ℕ) (fin : Bool) (c : Connection)
    → c.has_send ≡ true
    → id ≢ 0
    → (send_response id status headers body fin c).events
      ≡ c.events
        ++ (sent (
              headers_frame id (response_headers status headers body) (fin && is_empty body)
              ++ (if is_empty body then [] else data_frame id body fin))
            ∷ [])
unfolding send_response send emit
send_response_events id status headers body fin c cb ne = elim (Bool-cases (id == 0)) [
  | inl e ↦ absurd (ground (arith, ne, e))
  | inr e ↦ rw (e, cb)
]

-- A response is sent in one call. A peer reads from it a HEADERS frame with the status, the length and
-- the headers, and then, if there is a body, one DATA frame with it; the last of them ends the stream
-- exactly if that was asked for. This holds for frames below 2^24 bytes.
pub send_response_read :
    (id status : ℕ) (headers : List Header) (body : List ℕ) (fin : Bool) (c : Connection)
    → c.has_send ≡ true
    → id ≢ 0
    → id < 2 ^ 31
    → All Fits (response_headers status headers body)
    → length (encode_no_index (response_headers status headers body) []) < 2 ^ 24
    → length body < 2 ^ 24
    → (bytes : List ℕ) × (rest : List ℕ) × ((send_response id status headers body fin c).events
        ≡ c.events ++ (sent bytes ∷ []))
      × BeginsWithHeaders id
          (response_headers status headers body)
          (fin && is_empty body)
          bytes
          rest
      × (if is_empty body
          then rest ≡ []
          else parse_one_frame rest
            ≡ some (frame_header (length body) k_data (if fin then 0x1 else 0x0) id, body, []))
send_response_read id status headers [] fin c cb ne word fits short small =
    let hs = response_headers status headers [] in
    (
      headers_frame id hs (fin && true) ++ [],
      [],
      send_response_events id status headers [] fin c cb ne,
      headers_frame_lem id hs (fin && true) [] word fits short,
      refl,
    )
send_response_read id status headers (b ∷ bs) fin c cb ne word fits short small =
    let hs = response_headers status headers (b ∷ bs) in
    let back = data_frame id (b ∷ bs) fin in
    (
      headers_frame id hs (fin && false) ++ back,
      back,
      send_response_events id status headers (b ∷ bs) fin c cb ne,
      headers_frame_lem id hs (fin && false) back word fits short,
      ap parse_one_frame (sym (append-nil back)) ∙ data_frame_lem id (b ∷ bs) fin [] word small,
    )
