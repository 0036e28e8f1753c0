-- ===== src/Http2/Frame.antt =====
-- Http2Common.h: frame headers and their nine bytes; Http2Connection::parseOneFrame.
pub mod RoundTrip
use linux_highperf_proxy.Base.{
  ℕ, ◌+◌, ◌*◌, ◌/◌, ◌%◌, ◌^◌, List, [], ◌∷◌, ◌++◌, Option, none, some, ltb, if◌then◌else◌, length,
  take, drop,
}

-- Http2FrameHeader
pub record FrameHeader : Type 0 where
  pub len : ℕ
  pub kind : ℕ
  pub flags : ℕ
  pub stream_id : ℕ

-- Http2FrameType, as far as the program names a type.
abbrev pub k_data : ℕ
k_data = 0x0

abbrev pub k_headers : ℕ
k_headers = 0x1

abbrev pub k_settings : ℕ
k_settings = 0x4

abbrev pub k_ping : ℕ
k_ping = 0x6

abbrev pub k_continuation : ℕ
k_continuation = 0x9

-- kHttp2ConnectionPreface: PRI * HTTP/2.0, CR LF CR LF, SM, CR LF CR LF.
abbrev pub connection_preface : List ℕ
connection_preface =
    0x50 ∷ 0x52 ∷ 0x49 ∷ 0x20 ∷ 0x2a ∷ 0x20 ∷ 0x48 ∷ 0x54 ∷ 0x54 ∷ 0x50 ∷ 0x2f ∷ 0x32 ∷ 0x2e ∷ 0x30
    ∷ 0x0d ∷ 0x0a ∷ 0x0d ∷ 0x0a ∷ 0x53 ∷ 0x4d ∷ 0x0d ∷ 0x0a ∷ 0x0d ∷ 0x0a ∷ []

-- Write24 and Write32: the bytes that they push.
abbrev pub write24 : ℕ → List ℕ
write24 v = v / 2 ^ 16 % 256 ∷ v / 2 ^ 8 % 256 ∷ v % 256 ∷ []

abbrev pub write32 : ℕ → List ℕ
write32 v = v / 2 ^ 24 % 256 ∷ v / 2 ^ 16 % 256 ∷ v / 2 ^ 8 % 256 ∷ v % 256 ∷ []

-- WriteFrame: what it appends for a payload that is not a null pointer.
unfoldable pub write_frame : FrameHeader → List ℕ → List ℕ
write_frame h payload =
    write24 h.len ++ (h.kind % 256 ∷ h.flags % 256 ∷ (write32 (h.stream_id % 2 ^ 31) ++ payload))

-- Four bytes as a uint32.
abbrev pub read32 : ℕ → ℕ → ℕ → ℕ → ℕ
read32 b1 b2 b3 b4 = (b1 * 2 ^ 24 + b2 * 2 ^ 16 + b3 * 2 ^ 8 + b4) % 2 ^ 32

-- The header, the payload and what stays in `in_`; `none` where a frame is not there in full.
unfoldable pub parse_one_frame : List ℕ → Option (FrameHeader × List ℕ × List ℕ)
parse_one_frame (l1 ∷ l2 ∷ l3 ∷ kind ∷ flags ∷ s1 ∷ s2 ∷ s3 ∷ s4 ∷ rest) =
    let len = l1 * 2 ^ 16 + l2 * 2 ^ 8 + l3 in
    let h : FrameHeader = record {
      len = len;
      kind = kind;
      flags = flags;
      stream_id = read32 s1 s2 s3 s4 % 2 ^ 31;
    } in
    if ltb (length rest) len then none else some (h, take len rest, drop len rest)
parse_one_frame _ = none
