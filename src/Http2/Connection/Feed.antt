-- ===== src/Http2/Connection/Feed.antt =====
-- Http2Connection::OnData does not depend on how the bytes are cut into reads.
use linux_highperf_proxy.Base.{
  ℕ, zero, suc, ◌≤◌, ◌≡◌, refl, sym, ap, ◌∙◌, List, [], ◌∷◌, ◌++◌, none, some, Option-cases, inl,
  inr, true, length, append_assoc, append-nil, arith,
}
use linux_highperf_proxy.Http2.Frame.{FrameHeader, parse_one_frame}
use linux_highperf_proxy.Http2.Frame.RoundTrip.{parse_one_frame-append, parse_one_frame_shorter}
use linux_highperf_proxy.Http2.Connection.Handlers.{
  with_input, handle_frame-with_input, handle_frame-input, handle_frame-preface_done,
}
use linux_highperf_proxy.Http2.Connection.{
  Connection, handle_frame, parse_loop, parse_frames, on_data,
}

-- The loop, one round at a time.
parse_loop_end : (f : ℕ) (c : Connection) → parse_one_frame c.input ≡ none → parse_loop f c ≡ c
unfolding parse_loop
parse_loop_end zero c e = refl
parse_loop_end (suc f) c e = rw (e, parse_loop)

parse_loop_more :
    (f : ℕ) (c : Connection) {h : FrameHeader} {payload rest : List ℕ}
    → parse_one_frame c.input ≡ some (h, payload, rest)
    → parse_loop (suc f) c ≡ parse_loop f (handle_frame h payload (with_input rest c))
unfolding parse_loop
parse_loop_more f c e = rw (e, parse_loop)

-- More fuel than bytes makes no difference.
parse_loop_fuel :
    (f g : ℕ) (c : Connection)
    → length c.input ≤ f
    → length c.input ≤ g
    → parse_loop f c ≡ parse_loop g c
parse_loop_fuel zero g c hf hg = elim (Option-cases (parse_one_frame c.input)) [
  | inl n ↦ parse_loop_end zero c n ∙ sym (parse_loop_end g c n)
  | inr ((h, payload, rest), e) ↦ absurd (omega (arith, parse_one_frame_shorter c.input e))
]
parse_loop_fuel (suc f) zero c hf hg = elim (Option-cases (parse_one_frame c.input)) [
  | inl n ↦ parse_loop_end (suc f) c n ∙ sym (parse_loop_end zero c n)
  | inr ((h, payload, rest), e) ↦ absurd (omega (arith, parse_one_frame_shorter c.input e))
]
parse_loop_fuel (suc f) (suc g) c hf hg = elim (Option-cases (parse_one_frame c.input)) [
  | inl n ↦ parse_loop_end (suc f) c n ∙ sym (parse_loop_end (suc g) c n)
  | inr ((h, payload, rest), e) ↦
      let d = handle_frame h payload (with_input rest c) in
      let same = ap length (handle_frame-input h payload (with_input rest c)) in
      let less = parse_one_frame_shorter c.input e in
      parse_loop_more f c e
      ∙ parse_loop_fuel f g d (omega (arith, same, less)) (omega (arith, same, less))
      ∙ sym (parse_loop_more g c e)
]

-- parseFrames handles the first frame and goes on, and stops where no frame is there in full.
pub parse_frames_step :
    (c : Connection) {h : FrameHeader} {payload rest : List ℕ}
    → parse_one_frame c.input ≡ some (h, payload, rest)
    → parse_frames c ≡ parse_frames (handle_frame h payload (with_input rest c))
unfolding parse_frames
parse_frames_step c {h} {payload} {rest} e =
    let d = handle_frame h payload (with_input rest c) in
    let same = ap length (handle_frame-input h payload (with_input rest c)) in
    let less = parse_one_frame_shorter c.input e in
    parse_loop_fuel (length c.input) (suc (length c.input)) c (omega arith) (omega arith)
    ∙ parse_loop_more (length c.input) c e
    ∙ parse_loop_fuel (length c.input) (length d.input) d (omega (arith, same, less)) (omega arith)

pub parse_frames_end : (c : Connection) → parse_one_frame c.input ≡ none → parse_frames c ≡ c
unfolding parse_frames
parse_frames_end c e = parse_loop_end (length c.input) c e

abbrev feed : List ℕ → Connection → Connection
feed ys c = with_input (c.input ++ ys) c

parse_nothing : parse_one_frame [] ≡ none
unfolding parse_one_frame
parse_nothing = refl

-- Bytes that are added before the loop are parsed as if they were added after it.
parse_frames-feed :
    (f : ℕ) (ys : List ℕ) (c : Connection)
    → length c.input ≤ f
    → parse_frames (feed ys c) ≡ parse_frames (feed ys (parse_loop f c))
parse_frames-feed zero ys c le = elim (Option-cases (parse_one_frame c.input)) [
  | inl n ↦ ap (λ d. parse_frames (feed ys d)) (sym (parse_loop_end zero c n))
  | inr ((h, payload, rest), e) ↦ absurd (omega (arith, parse_one_frame_shorter c.input e))
]
parse_frames-feed (suc f) ys c le = elim (Option-cases (parse_one_frame c.input)) [
  | inl n ↦ ap (λ d. parse_frames (feed ys d)) (sym (parse_loop_end (suc f) c n))
  | inr ((h, payload, rest), e) ↦
      let d = handle_frame h payload (with_input rest c) in
      let same = handle_frame-input h payload (with_input rest c) in
      parse_frames_step (feed ys c) (parse_one_frame-append c.input ys e)
      ∙ ap parse_frames (handle_frame-with_input h payload (rest ++ ys) (with_input rest c))
      ∙ ap (λ z. parse_frames (with_input (z ++ ys) d)) (sym same)
      ∙ parse_frames-feed f ys d (omega (arith, ap length same, parse_one_frame_shorter c.input e))
      ∙ ap (λ z. parse_frames (feed ys z)) (sym (parse_loop_more f c e))
]

parse_loop-preface_done : (f : ℕ) (c : Connection) → (parse_loop f c).preface_done ≡ c.preface_done
unfolding parse_loop
parse_loop-preface_done zero c = refl
parse_loop-preface_done (suc f) c = elim (Option-cases (parse_one_frame c.input)) [
  | inl n ↦ rw (n, parse_loop)
  | inr ((h, payload, rest), e) ↦
      rw (e, parse_loop)
        (parse_loop-preface_done f (handle_frame h payload (with_input rest c))
          ∙ handle_frame-preface_done h payload (with_input rest c))
]

-- Once the preface is past, it makes no difference where the byte stream is cut: handling it in two
-- reads gives the same state, the same requests and the same replies as handling it in one.
pub on_data-append :
    (xs ys : List ℕ) (c : Connection)
    → c.preface_done ≡ true
    → on_data (xs ++ ys) c ≡ on_data ys (on_data xs c)
unfolding on_data parse_frames
on_data-append [] ys c done = refl
on_data-append (x ∷ xs) [] c done = ap (λ z. on_data z c) (append-nil (x ∷ xs))
on_data-append (x ∷ xs) (y ∷ ys) c done =
    let d = parse_frames (feed (x ∷ xs) c) in
    let done' : d.preface_done ≡ true =
      parse_loop-preface_done (length (c.input ++ (x ∷ xs))) (feed (x ∷ xs) c) ∙ done in
    let whole =
      ap (λ z. parse_frames (with_input z c)) (sym (append_assoc c.input (x ∷ xs) (y ∷ ys))) in
    let cut =
      parse_frames-feed (length (c.input ++ (x ∷ xs))) (y ∷ ys) (feed (x ∷ xs) c) (omega arith) in
    ground (arith, done', whole, cut)

parse_loop_drains :
    (f : ℕ) (c : Connection) → length c.input ≤ f → parse_one_frame (parse_loop f c).input ≡ none
parse_loop_drains zero c le = elim (Option-cases (parse_one_frame c.input)) [
  | inl n ↦ rw (parse_loop_end zero c n) n
  | inr ((h, payload, rest), e) ↦ absurd (omega (arith, parse_one_frame_shorter c.input e))
]
parse_loop_drains (suc f) c le = elim (Option-cases (parse_one_frame c.input)) [
  | inl n ↦ rw (parse_loop_end (suc f) c n) n
  | inr ((h, payload, rest), e) ↦
      let same = ap length (handle_frame-input h payload (with_input rest c)) in
      rw (parse_loop_more f c e) (
        parse_loop_drains f (handle_frame h payload (with_input rest c))
          (omega (arith, same, parse_one_frame_shorter c.input e)))
]

-- When parseFrames returns, no complete frame is left in the buffer.
pub parse_frames_drains : (c : Connection) → parse_one_frame (parse_frames c).input ≡ none
unfolding parse_frames
parse_frames_drains c = parse_loop_drains (length c.input) c (omega arith)

on_data_ready :
    (b : ℕ) (bs : List ℕ) (c : Connection)
    → c.preface_done ≡ true
    → on_data (b ∷ bs) c ≡ parse_frames (feed (b ∷ bs) c)
unfolding on_data
on_data_ready b bs c done = ground (arith, done)

-- A read that brings exactly one frame handles that frame.
pub on_data_one_frame :
    (bytes : List ℕ) (c : Connection) {h : FrameHeader} {payload : List ℕ}
    → c.preface_done ≡ true
    → c.input ≡ []
    → parse_one_frame bytes ≡ some (h, payload, [])
    → on_data bytes c ≡ handle_frame h payload c
on_data_one_frame [] c {h} {payload} done empty e =
    absurd (omega (arith, parse_one_frame_shorter [] e))
on_data_one_frame (b ∷ bs) c {h} {payload} done empty e =
    let d = handle_frame h payload (with_input [] c) in
    let left = handle_frame-input h payload (with_input [] c) in
    on_data_ready b bs c done
    ∙ ap (λ z. parse_frames (with_input (z ++ (b ∷ bs)) c)) empty
    ∙ parse_frames_step (with_input (b ∷ bs) c) e
    ∙ parse_frames_end d (rw left parse_nothing)
    ∙ ap (λ z. handle_frame h payload (with_input z c)) (sym empty)
