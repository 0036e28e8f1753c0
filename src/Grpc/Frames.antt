-- ===== src/Grpc/Frames.antt =====
-- GrpcFramer: the decoder accepts exactly the encodings of messages, and returns on every input.
use linux_highperf_proxy.Base.{
  ℕ, zero, suc, ◌+◌, ◌*◌, ◌^◌, ◌≤◌, ◌<◌, ◌≡◌, ◌≢◌, refl, sym, ap, ◌∙◌, List, [], ◌∷◌, ◌++◌, length,
  length-append, length-drop, length-take, take, drop, take-append-drop, take-length-append,
  drop-length-append, append_assoc, append-nil, All, arith,
}
use linux_highperf_proxy.Base.Bytes.{IsByte}
use linux_highperf_proxy.Base.Outcome.{ok, stuck}
use linux_highperf_proxy.Grpc.{encode_message, decode_loop, decode_messages}

-- The frames of a sequence of messages, one after the other.
abbrev pub encode_messages : List (List ℕ) → List ℕ
encode_messages [] = []
encode_messages (m ∷ ms) = encode_message m ++ encode_messages ms

-- A length that fits the 32-bit prefix.
abbrev pub Fits : List ℕ → Type 0
Fits m = length m < 2 ^ 32

decode_loop-encode_message :
    (fuel : ℕ) (m rest : List ℕ) (out : List (List ℕ))
    → Fits m
    → decode_loop (suc fuel) (encode_message m ++ rest) out
      ≡ decode_loop fuel rest (out ++ (m ∷ []))
unfolding decode_loop encode_message
decode_loop-encode_message fuel m rest out h =
    ground (arith, length-append m rest, take-length-append m rest, drop-length-append m rest)

length-encode_message : (m : List ℕ) → length (encode_message m) ≡ length m + 5
unfolding encode_message
length-encode_message m = omega arith

decode_loop-encode_messages :
    (fuel : ℕ) (ms out : List (List ℕ))
    → length (encode_messages ms) ≤ fuel
    → All Fits ms
    → decode_loop fuel (encode_messages ms) out ≡ ok (out ++ ms)
decode_loop-encode_messages fuel [] out h fits = unfold decode_loop in ap ok (sym (append-nil out))
decode_loop-encode_messages zero (m ∷ ms) out h fits =
    absurd (
      omega (arith, length-append (encode_message m) (encode_messages ms), length-encode_message m))
decode_loop-encode_messages (suc fuel) (m ∷ ms) out h (fit, fits) =
    decode_loop-encode_message fuel m (encode_messages ms) out fit
    ∙ decode_loop-encode_messages fuel ms (out ++ (m ∷ []))
        (omega
          (arith, length-append (encode_message m) (encode_messages ms), length-encode_message m))
        fits
    ∙ ap ok (append_assoc out (m ∷ []) ms)

-- A sequence of messages, each shorter than 2^32 bytes, is read back from its frames.
pub decode_messages-encode_messages :
    (ms : List (List ℕ)) → All Fits ms → decode_messages (encode_messages ms) ≡ ok ms
unfolding decode_messages
decode_messages-encode_messages ms fits =
    decode_loop-encode_messages (length (encode_messages ms)) ms [] (omega arith) fits

decode_loop-ne-stuck :
    (fuel : ℕ) (input : List ℕ) (out : List (List ℕ))
    → length input ≤ fuel
    → decode_loop fuel input out ≢ stuck
unfolding decode_loop
decode_loop-ne-stuck fuel [] out h e = cc
decode_loop-ne-stuck zero (b ∷ rest) out h e = absurd (omega arith)
decode_loop-ne-stuck (suc fuel) (c ∷ b1 ∷ b2 ∷ b3 ∷ b4 ∷ rest) out h e =
    let n = b1 * 2 ^ 24 + b2 * 2 ^ 16 + b3 * 2 ^ 8 + b4 in
    ground (
      arith,
      length-drop n rest,
      decode_loop-ne-stuck fuel (drop n rest) (out ++ (take n rest ∷ [])),
    )
decode_loop-ne-stuck (suc fuel) _ out h e = cc

-- The decoder returns on every input.
pub decode_messages-ne-stuck : (input : List ℕ) → decode_messages input ≢ stuck
unfolding decode_messages
decode_messages-ne-stuck input = decode_loop-ne-stuck (length input) input [] (omega arith)

-- Five bytes with a zero flag, and the payload that they announce, are the frame of that payload.
frame_of_bytes :
    (b1 b2 b3 b4 : ℕ) (rest : List ℕ)
    → IsByte b1
    → IsByte b2
    → IsByte b3
    → IsByte b4
    → b1 * 2 ^ 24 + b2 * 2 ^ 16 + b3 * 2 ^ 8 + b4 ≤ length rest
    → encode_message (take (b1 * 2 ^ 24 + b2 * 2 ^ 16 + b3 * 2 ^ 8 + b4) rest)
        ++ drop (b1 * 2 ^ 24 + b2 * 2 ^ 16 + b3 * 2 ^ 8 + b4) rest
      ≡ 0 ∷ b1 ∷ b2 ∷ b3 ∷ b4 ∷ rest
unfolding encode_message
frame_of_bytes b1 b2 b3 b4 rest h1 h2 h3 h4 le =
    let n = b1 * 2 ^ 24 + b2 * 2 ^ 16 + b3 * 2 ^ 8 + b4 in
    ground (arith, length-take n rest, take-append-drop n rest)

All-drop : (n : ℕ) (xs : List ℕ) → All IsByte xs → All IsByte (drop n xs)
All-drop zero xs h = h
All-drop (suc n) [] h = h
All-drop (suc n) (x ∷ xs) (_, h) = All-drop n xs h

-- The messages that one run of the loop adds, and the frames that they came from.
abbrev Reads : List ℕ → List (List ℕ) → List (List ℕ) → Type 0
Reads input out ms = (new : List (List ℕ)) × (ms ≡ out ++ new) × (encode_messages new ≡ input)

decode_loop-Reads :
    (fuel : ℕ) (input : List ℕ) (out ms : List (List ℕ))
    → All IsByte input
    → decode_loop fuel input out ≡ ok ms
    → Reads input out ms
unfolding decode_loop
decode_loop-Reads fuel [] out ms h e = ([], ground (arith, append-nil out), refl)
decode_loop-Reads zero (b ∷ rest) out ms h e = cc
decode_loop-Reads (suc fuel) (c ∷ b1 ∷ b2 ∷ b3 ∷ b4 ∷ rest) out ms (_, (h1, (h2, (h3, (h4, hs)))))
      e =
    let n = b1 * 2 ^ 24 + b2 * 2 ^ 16 + b3 * 2 ^ 8 + b4 in
    let m = take n rest in
    let zero_flag : c ≡ 0 = ground arith in
    let enough : n ≤ length rest = ground arith in
    let more : decode_loop fuel (drop n rest) (out ++ (m ∷ [])) ≡ ok ms = ground arith in
    let (new, e1, e2) =
      decode_loop-Reads fuel (drop n rest) (out ++ (m ∷ [])) ms (All-drop n rest hs) more in
    (
      m ∷ new,
      e1 ∙ append_assoc out (m ∷ []) new,
      rw (e2, zero_flag) (frame_of_bytes b1 b2 b3 b4 rest h1 h2 h3 h4 enough),
    )
decode_loop-Reads (suc fuel) _ out ms h e = cc

-- Nothing else is accepted: a byte string that decodes is the concatenation of the frames of the
-- messages that it gave.
pub encode_messages-decode_messages :
    (input : List ℕ) (ms : List (List ℕ))
    → All IsByte input
    → decode_messages input ≡ ok ms
    → encode_messages ms ≡ input
unfolding decode_messages
encode_messages-decode_messages input ms h e =
    let (new, e1, e2) = decode_loop-Reads (length input) input [] ms h e in rw e1 e2
