-- ===== src/Http2/Frame/RoundTrip.antt =====
-- Frames that are written are parsed back, and a parse does not depend on the bytes that follow.
use linux_highperf_proxy.Base.{
  ℕ, ◌+◌, ◌*◌, ◌^◌, ◌≤◌, ◌<◌, ◌≡◌, List, ◌∷◌, ◌++◌, some, length, length-append, length-drop,
  take-length-append, drop-length-append, take_append, drop_append, arith,
}
use linux_highperf_proxy.Http2.Frame.{FrameHeader, write_frame, parse_one_frame}

-- The fields of a frame header within the widths that they have on the wire.
pub record IsWire (h : FrameHeader) : Type 0 where
  pub len_fits : h.len < 2 ^ 24
  pub kind_fits : h.kind < 256
  pub flags_fits : h.flags < 256
  pub stream_fits : h.stream_id < 2 ^ 31

-- A frame that WriteFrame wrote, with the length of its payload in its header, is parsed to that
-- header and payload, and all bytes behind it are left.
pub parse_one_frame-write_frame :
    (h : FrameHeader) (payload rest : List ℕ)
    → IsWire h
    → h.len ≡ length payload
    → parse_one_frame (write_frame h payload ++ rest) ≡ some (h, payload, rest)
unfolding parse_one_frame write_frame
parse_one_frame-write_frame h payload rest w e = ground (
  arith,
  length-append payload rest,
  take-length-append payload rest,
  drop-length-append payload rest,
)

-- A frame that is there in full is parsed to the same header and payload when more bytes follow.
pub parse_one_frame-append :
    (input more : List ℕ) {h : FrameHeader} {payload rest : List ℕ}
    → parse_one_frame input ≡ some (h, payload, rest)
    → parse_one_frame (input ++ more) ≡ some (h, payload, rest ++ more)
unfolding parse_one_frame
parse_one_frame-append (l1 ∷ l2 ∷ l3 ∷ kind ∷ flags ∷ s1 ∷ s2 ∷ s3 ∷ s4 ∷ tail) more e =
    let len = l1 * 2 ^ 16 + l2 * 2 ^ 8 + l3 in
    ground (arith, length-append tail more, take_append len tail more, drop_append len tail more)
parse_one_frame-append _ more e = cc

-- A frame takes at least the nine bytes of its header.
pub parse_one_frame_shorter :
    (input : List ℕ) {h : FrameHeader} {payload rest : List ℕ}
    → parse_one_frame input ≡ some (h, payload, rest)
    → length rest + 9 ≤ length input
unfolding parse_one_frame
parse_one_frame_shorter (l1 ∷ l2 ∷ l3 ∷ kind ∷ flags ∷ s1 ∷ s2 ∷ s3 ∷ s4 ∷ tail) e =
    ground (arith, length-drop (l1 * 2 ^ 16 + l2 * 2 ^ 8 + l3) tail)
parse_one_frame_shorter _ e = cc
