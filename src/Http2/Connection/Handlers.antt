-- ===== src/Http2/Connection/Handlers.antt =====
-- The handlers of Http2Connection leave the bytes to parse, and the preface, alone.
use linux_highperf_proxy.Base.{ℕ, ◌≡◌, refl, ap, List, ◌++◌, Option-cases, inl, inr, ◌||◌, arith}
use linux_highperf_proxy.Http2.Frame.{FrameHeader}
use linux_highperf_proxy.Hpack.StaticTable.{Header}
use linux_highperf_proxy.Base.Outcome.{Outcome, ok, failed, fault, stuck}
use linux_highperf_proxy.Http2.Stream.{StreamState, stream_or_new}
use linux_highperf_proxy.Http2.Connection.{
  Connection, emit, send, send_settings_ack, send_ping_ack, try_emit_request, handle_settings,
  handle_ping, store_headers, finish_headers, handle_headers, handle_continuation, handle_data,
  handle_frame, unpad, flag, put_stream,
}

-- A connection with other bytes to parse.
abbrev pub with_input : List ℕ → Connection → Connection
with_input x c = record c { input = x }

send-with_input :
    (bytes x : List ℕ) (c : Connection) → send bytes (with_input x c) ≡ with_input x (send bytes c)
unfolding send emit
send-with_input bytes x c = ground arith

try_emit_request-with_input :
    (id : ℕ) (x : List ℕ) (c : Connection)
    → try_emit_request id (with_input x c) ≡ with_input x (try_emit_request id c)
unfolding try_emit_request emit
try_emit_request-with_input id x c = ground arith

store_headers-with_input :
    (id : ℕ) (st : StreamState) (r : Outcome (List Header)) (x : List ℕ) (c : Connection)
    → store_headers id st r (with_input x c) ≡ with_input x (store_headers id st r c)
unfolding store_headers
store_headers-with_input id st (ok hdrs) x c = try_emit_request-with_input id x _
store_headers-with_input id st failed x c = refl
store_headers-with_input id st fault x c = refl
store_headers-with_input id st stuck x c = refl

finish_headers-with_input :
    (id : ℕ) (st : StreamState) (x : List ℕ) (c : Connection)
    → finish_headers id st (with_input x c) ≡ with_input x (finish_headers id st c)
unfolding finish_headers
finish_headers-with_input id st x c = store_headers-with_input id _ _ x _

handle_settings-with_input :
    (h : FrameHeader) (payload x : List ℕ) (c : Connection)
    → handle_settings h payload (with_input x c) ≡ with_input x (handle_settings h payload c)
unfolding handle_settings send_settings_ack send emit
handle_settings-with_input h payload x c = ground arith

handle_ping-with_input :
    (h : FrameHeader) (payload x : List ℕ) (c : Connection)
    → handle_ping h payload (with_input x c) ≡ with_input x (handle_ping h payload c)
unfolding handle_ping send_ping_ack send emit
handle_ping-with_input h payload x c = ground arith

handle_headers-with_input :
    (h : FrameHeader) (payload x : List ℕ) (c : Connection)
    → handle_headers h payload (with_input x c) ≡ with_input x (handle_headers h payload c)
unfolding handle_headers
handle_headers-with_input h payload x c = grind (arith, finish_headers-with_input)

handle_continuation-with_input :
    (h : FrameHeader) (payload x : List ℕ) (c : Connection)
    → handle_continuation h payload (with_input x c)
      ≡ with_input x (handle_continuation h payload c)
unfolding handle_continuation
handle_continuation-with_input h payload x c = grind (arith, finish_headers-with_input)

handle_data-with_input :
    (h : FrameHeader) (payload x : List ℕ) (c : Connection)
    → handle_data h payload (with_input x c) ≡ with_input x (handle_data h payload c)
unfolding handle_data
handle_data-with_input h payload x c = elim (Option-cases (unpad h.flags payload)) [
  | inl n ↦ ground (arith, n)
  | inr (fragment, e) ↦
      let id = h.stream_id in
      let st = stream_or_new id c.streams in
      let st' : StreamState = record st {
        got_end_stream = st.got_end_stream || flag h.flags 0x1;
        body = st.body ++ fragment;
      } in
      ground (arith, e, try_emit_request-with_input id x (put_stream id st' c))
]

pub handle_frame-with_input :
    (h : FrameHeader) (payload x : List ℕ) (c : Connection)
    → handle_frame h payload (with_input x c) ≡ with_input x (handle_frame h payload c)
unfolding handle_frame
handle_frame-with_input h payload x c = ground (
  arith,
  handle_settings-with_input h payload x c,
  handle_headers-with_input h payload x c,
  handle_continuation-with_input h payload x c,
  handle_data-with_input h payload x c,
  handle_ping-with_input h payload x c,
)

-- Handlers of frames leave the bytes to parse, and the preface, alone.
pub handle_frame-input :
    (h : FrameHeader) (payload : List ℕ) (c : Connection)
    → (handle_frame h payload c).input ≡ c.input
handle_frame-input h payload c = ap (λ d. d.input) (handle_frame-with_input h payload c.input c)

-- Nor does a handler of a frame touch the flag of the preface.
send-preface_done : (bytes : List ℕ) (c : Connection) → (send bytes c).preface_done ≡ c.preface_done
unfolding send emit
send-preface_done bytes c = ground arith

try_emit_request-preface_done :
    (id : ℕ) (c : Connection) → (try_emit_request id c).preface_done ≡ c.preface_done
unfolding try_emit_request emit
try_emit_request-preface_done id c = ground arith

store_headers-preface_done :
    (id : ℕ) (st : StreamState) (r : Outcome (List Header)) (c : Connection)
    → (store_headers id st r c).preface_done ≡ c.preface_done
unfolding store_headers
store_headers-preface_done id st (ok hdrs) c = try_emit_request-preface_done id _
store_headers-preface_done id st failed c = refl
store_headers-preface_done id st fault c = refl
store_headers-preface_done id st stuck c = refl

finish_headers-preface_done :
    (id : ℕ) (st : StreamState) (c : Connection)
    → (finish_headers id st c).preface_done ≡ c.preface_done
unfolding finish_headers
finish_headers-preface_done id st c = store_headers-preface_done id _ _ _

pub handle_frame-preface_done :
    (h : FrameHeader) (payload : List ℕ) (c : Connection)
    → (handle_frame h payload c).preface_done ≡ c.preface_done
unfolding handle_frame handle_settings handle_ping handle_headers handle_continuation handle_data
    send_settings_ack send_ping_ack
handle_frame-preface_done h payload c =
    grind (arith, send-preface_done, try_emit_request-preface_done, finish_headers-preface_done)
