-- ===== src/Grpc/Tests.antt =====
-- GrpcFramer at concrete inputs.
use linux_highperf_proxy.Base.{ℕ, ◌≡◌, refl, List, [], ◌∷◌, arith}
use linux_highperf_proxy.Base.Bytes.{codes}
use linux_highperf_proxy.Base.Outcome.{ok, failed}
use linux_highperf_proxy.Grpc.{encode_message, decode_loop, decode_messages}
use linux_highperf_proxy.Grpc.Frames.{encode_messages, decode_messages-encode_messages}

frame_hi : encode_message (codes "hi") ≡ 0 ∷ 0 ∷ 0 ∷ 0 ∷ 2 ∷ codes "hi"
unfolding encode_message
frame_hi = refl

compressed_refused : decode_messages (1 ∷ 0 ∷ 0 ∷ 0 ∷ 0 ∷ []) ≡ failed
unfolding decode_messages decode_loop
compressed_refused = refl

abbrev frame_x : List ℕ
frame_x = 0 ∷ 0 ∷ 0 ∷ 0 ∷ 1 ∷ codes "x"

frame_x_decodes : decode_messages frame_x ≡ ok (codes "x" ∷ [])
unfolding decode_messages decode_loop
frame_x_decodes = refl

decode_messages-encode_messages_example :
    decode_messages (encode_messages (codes "hi" ∷ [] ∷ [])) ≡ ok (codes "hi" ∷ [] ∷ [])
decode_messages-encode_messages_example =
    decode_messages-encode_messages (codes "hi" ∷ [] ∷ []) (omega arith)
