-- ===== src/Http2/Connection/Valid.antt =====
-- The header table of a Http2Connection stays within its limit, whatever bytes arrive.
use linux_highperf_proxy.Base.{
  ℕ, zero, suc, ◌^◌, ◌≡◌, refl, sym, List, [], ◌∷◌, Option-cases, Bool-cases, inl, inr, arith,
  subst, ◌==◌, length, ◌%◌, ◌*◌, ◌+◌,
}
use linux_highperf_proxy.Base.Outcome.{Outcome, ok, failed, fault, stuck}
use linux_highperf_proxy.Hpack.StaticTable.{Header}
use linux_highperf_proxy.Hpack.Table.{Table, update_max_size}
use linux_highperf_proxy.Hpack.Table.Evict.{IsValid, update_max_size-IsValid}
use linux_highperf_proxy.Hpack.Codec.Safety.{decode-IsValid}
use linux_highperf_proxy.Http2.Frame.{FrameHeader, parse_one_frame, read32}
use linux_highperf_proxy.Http2.Stream.{StreamState}
use linux_highperf_proxy.Http2.Connection.{
  Connection, send, emit, send_settings, send_settings_ack, send_ping_ack, try_emit_request,
  settings_loop, handle_settings, handle_ping, store_headers, finish_headers, handle_headers,
  handle_continuation, handle_data, handle_frame, parse_loop, parse_frames, on_preface, on_data,
}

send-hpack : (bytes : List ℕ) (c : Connection) → (send bytes c).hpack ≡ c.hpack
unfolding send emit
send-hpack bytes c = ground arith

try_emit_request-hpack : (id : ℕ) (c : Connection) → (try_emit_request id c).hpack ≡ c.hpack
unfolding try_emit_request emit
try_emit_request-hpack id c = ground arith

store_headers-hpack :
    (id : ℕ) (st : StreamState) (r : Outcome (List Header)) (c : Connection)
    → (store_headers id st r c).hpack ≡ c.hpack
unfolding store_headers
store_headers-hpack id st (ok hdrs) c = try_emit_request-hpack id _
store_headers-hpack id st failed c = refl
store_headers-hpack id st fault c = refl
store_headers-hpack id st stuck c = refl

settings_loop-IsValid :
    (payload : List ℕ) (t : Table) → IsValid t → IsValid (settings_loop payload t)
unfolding settings_loop
settings_loop-IsValid (i1 ∷ i2 ∷ v1 ∷ v2 ∷ v3 ∷ v4 ∷ rest) t v =
    elim (Bool-cases ((i1 * 2 ^ 8 + i2) % 2 ^ 16 == 1)) [
      | inl e ↦ rw e (
          settings_loop-IsValid rest (update_max_size (read32 v1 v2 v3 v4) t)
            (update_max_size-IsValid (read32 v1 v2 v3 v4) t (omega arith) v))
      | inr e ↦ rw e (settings_loop-IsValid rest t v)
    ]
settings_loop-IsValid _ t v = v

finish_headers-IsValid :
    (id : ℕ) (st : StreamState) (c : Connection)
    → IsValid c.hpack
    → IsValid (finish_headers id st c).hpack
unfolding finish_headers
finish_headers-IsValid id st c v =
    subst IsValid (sym (store_headers-hpack id _ _ _)) (decode-IsValid c.hpack st.header_block v)

handle_settings-IsValid :
    (h : FrameHeader) (payload : List ℕ) (c : Connection)
    → IsValid c.hpack
    → IsValid (handle_settings h payload c).hpack
unfolding handle_settings send_settings_ack
handle_settings-IsValid h payload c v =
    grind (arith, send-hpack, settings_loop-IsValid payload c.hpack v)

handle_ping-IsValid :
    (h : FrameHeader) (payload : List ℕ) (c : Connection)
    → IsValid c.hpack
    → IsValid (handle_ping h payload c).hpack
unfolding handle_ping send_ping_ack
handle_ping-IsValid h payload c v = grind (arith, send-hpack)

handle_headers-IsValid :
    (h : FrameHeader) (payload : List ℕ) (c : Connection)
    → IsValid c.hpack
    → IsValid (handle_headers h payload c).hpack
unfolding handle_headers
handle_headers-IsValid h payload c v = grind (arith, finish_headers-IsValid)

handle_continuation-IsValid :
    (h : FrameHeader) (payload : List ℕ) (c : Connection)
    → IsValid c.hpack
    → IsValid (handle_continuation h payload c).hpack
unfolding handle_continuation
handle_continuation-IsValid h payload c v = grind (arith, finish_headers-IsValid)

handle_data-IsValid :
    (h : FrameHeader) (payload : List ℕ) (c : Connection)
    → IsValid c.hpack
    → IsValid (handle_data h payload c).hpack
unfolding handle_data
handle_data-IsValid h payload c v = grind (arith, try_emit_request-hpack)

handle_frame-IsValid :
    (h : FrameHeader) (payload : List ℕ) (c : Connection)
    → IsValid c.hpack
    → IsValid (handle_frame h payload c).hpack
unfolding handle_frame
handle_frame-IsValid h payload c v = ground (
  arith,
  handle_settings-IsValid h payload c v,
  handle_headers-IsValid h payload c v,
  handle_continuation-IsValid h payload c v,
  handle_data-IsValid h payload c v,
  handle_ping-IsValid h payload c v,
)

parse_loop-IsValid :
    (fuel : ℕ) (c : Connection) → IsValid c.hpack → IsValid (parse_loop fuel c).hpack
unfolding parse_loop
parse_loop-IsValid zero c v = v
parse_loop-IsValid (suc fuel) c v = elim (Option-cases (parse_one_frame c.input)) [
  | inl n ↦ rw (n, parse_loop) v
  | inr ((h, payload, rest), e) ↦
      rw (e, parse_loop)
        (parse_loop-IsValid fuel (handle_frame h payload (record c { input = rest }))
          (handle_frame-IsValid h payload (record c { input = rest }) v))
]

parse_frames-IsValid : (c : Connection) → IsValid c.hpack → IsValid (parse_frames c).hpack
unfolding parse_frames
parse_frames-IsValid c v = parse_loop-IsValid (length c.input) c v

on_preface-IsValid : (c : Connection) → IsValid c.hpack → IsValid (on_preface c).hpack
unfolding on_preface send_settings
on_preface-IsValid c v = grind (arith, parse_frames-IsValid, send-hpack)

-- Whatever bytes a peer sends, in whatever state of the connection: the header table stays within the
-- limit in force, its recorded size is the size of its entries, and the limit fits a uint32.
pub on_data-IsValid :
    (bytes : List ℕ) (c : Connection) → IsValid c.hpack → IsValid (on_data bytes c).hpack
unfolding on_data
on_data-IsValid [] c v = v
on_data-IsValid (b ∷ bs) c v = grind (arith, parse_frames-IsValid, on_preface-IsValid)
