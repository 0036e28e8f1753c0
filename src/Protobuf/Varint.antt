-- ===== src/Protobuf/Varint.antt =====
-- ProtobufLite's varints: what is written is read back, and what is read is in range.
use linux_highperf_proxy.Base.{
  ℕ, zero, suc, ◌+◌, ◌*◌, ◌/◌, ◌%◌, ◌^◌, ◌≤◌, ◌<◌, ◌≡◌, refl, ap, ◌∙◌, List, [], ◌∷◌, ◌++◌, none,
  some, subst, length, append_assoc, arith,
}
use linux_highperf_proxy.Base.Order.{lt_wf}
use linux_highperf_proxy.Protobuf.{push_groups, encode_varint, varint_loop, decode_varint}
use mathlib.Core.WellFounded.{Acc}
use native.Mathlib.Nat.{div-add-mod, pow-le-pow_right}
use native.Mathlib.Numerals.{towards_suc}

-- What stands in the output already stays in front, and the proof of accessibility does not matter.
push_groups-append :
    (out : List ℕ) (v : ℕ) (w w' : Acc ◌<◌ v) → push_groups out v w ≡ out ++ push_groups [] v w'
unfolding push_groups
push_groups-append out v (Acc.intro _ s) (Acc.intro _ s') =
    let x : List ℕ = (v % 128 + 128) ∷ [] in
    grind (
      arith,
      λ (p : v / 128 < v). push_groups-append (out ++ x) (v / 128) (s (v / 128) p) (s' (v / 128) p),
      λ (p : v / 128 < v). push_groups-append x (v / 128) (s' (v / 128) p) (s' (v / 128) p),
      λ (p : v / 128 < v). append_assoc out x (push_groups [] (v / 128) (s' (v / 128) p)),
    )

pub encode_varint-append : (v : ℕ) (out : List ℕ) → encode_varint v out ≡ out ++ encode_varint v []
unfolding encode_varint
encode_varint-append v out = push_groups-append out v (lt_wf.apply v) (lt_wf.apply v)

-- The two steps of the writing loop.
pub encode_varint_small : (v : ℕ) → v < 128 → encode_varint v [] ≡ v ∷ []
unfolding encode_varint
encode_varint_small v h = go (lt_wf.apply v)
  where
    go : (w : Acc ◌<◌ v) → push_groups [] v w ≡ v ∷ []
    go (Acc.intro _ s) = unfold push_groups in ground arith

pub encode_varint_large :
    (v : ℕ) → 128 ≤ v → encode_varint v [] ≡ (v % 128 + 128) ∷ encode_varint (v / 128) []
unfolding encode_varint
encode_varint_large v h = go (lt_wf.apply v)
  where
    go :
        (w : Acc ◌<◌ v)
        → push_groups [] v w ≡ (v % 128 + 128) ∷ push_groups [] (v / 128) (lt_wf.apply (v / 128))
    go (Acc.intro _ s) =
        let x : List ℕ = (v % 128 + 128) ∷ [] in
        unfold push_groups in
        grind (
          arith,
          λ (p : v / 128 < v).
              push_groups-append x (v / 128) (s (v / 128) p) (lt_wf.apply (v / 128)),
        )

shift_seven : (s : ℕ) → 2 ^ (s + 7) ≡ 128 * 2 ^ s
shift_seven s = simp towards_suc (omega arith)

-- A number shifted by `s` is its low group there and the rest seven bits further up.
pub split_low_group : (v s : ℕ) → v * 2 ^ s ≡ v % 128 * 2 ^ s + v / 128 * 2 ^ (s + 7)
split_low_group v s = omega (
  arith,
  ap (λ (t : ℕ). t * 2 ^ s) (div-add-mod v 128),
  ap (λ (t : ℕ). v / 128 * t) (shift_seven s),
)

-- The first byte of an encoding is read, and the loop goes on with the other bytes.
varint_loop-push_groups :
    (k v out shift off : ℕ) (w : Acc ◌<◌ v) (rest : List ℕ)
    → shift + 7 * k ≡ 63
    → v < 128 ^ suc k
    → out + v * 2 ^ shift < 2 ^ 64
    → varint_loop (push_groups [] v w ++ rest) out shift off
      ≡ some (out + v * 2 ^ shift, off + length (push_groups [] v w))
unfolding varint_loop push_groups
varint_loop-push_groups zero v out shift off (Acc.intro _ s) rest hk hv fits = grind arith
varint_loop-push_groups (suc k) v out shift off (Acc.intro _ s) rest hk hv fits =
    let x : List ℕ = (v % 128 + 128) ∷ [] in
    grind (
      arith,
      split_low_group v shift,
      λ (p : v / 128 < v). push_groups-append x (v / 128) (s (v / 128) p) (s (v / 128) p),
      λ (p : v / 128 < v).
          varint_loop-push_groups k (v / 128) (out + v % 128 * 2 ^ shift) (shift + 7) (off + 1)
            (s (v / 128) p) rest,
    )

-- Every uint64 that was encoded is decoded to itself, whatever bytes follow, and exactly the bytes
-- of the encoding are consumed.
pub decode_varint-encode_varint :
    (v : ℕ) (rest : List ℕ)
    → v < 2 ^ 64
    → decode_varint (encode_varint v [] ++ rest) ≡ some (v, length (encode_varint v []))
unfolding decode_varint encode_varint
decode_varint-encode_varint v rest h =
    varint_loop-push_groups 9 v 0 0 0 (lt_wf.apply v) rest refl (omega arith) (omega arith)
    ∙ ground arith

-- Past bit 63 the loop stops and fails.
varint_loop_over :
    (src : List ℕ) (out shift off : ℕ) → 63 < shift → varint_loop src out shift off ≡ none
unfolding varint_loop
varint_loop_over [] out shift off h = refl
varint_loop_over (b ∷ src) out shift off h = ground arith

group_fits :
    (b out shift : ℕ) → out < 2 ^ shift → out + b % 128 * 2 ^ shift % 2 ^ 64 < 2 ^ (shift + 7)
group_fits b out shift h = rw shift_seven (grind arith)

top_group_fits : (b out : ℕ) → out < 2 ^ 63 → out + b % 128 * 2 ^ 63 % 2 ^ 64 < 2 ^ 64
top_group_fits b out h = omega arith

pow_le_64 : (n : ℕ) → n ≤ 63 → 2 ^ n ≤ 2 ^ 64
pow_le_64 n h = pow-le-pow_right {n = 2} (omega arith) {i = n} {j = 64} (omega arith)

varint_loop_bounds :
    (k : ℕ) (src : List ℕ) (out shift off v used : ℕ)
    → shift + 7 * k ≡ 63
    → out < 2 ^ shift
    → varint_loop src out shift off ≡ some (v, used)
    → (v < 2 ^ 64) × (off < used) × (used ≤ off + length src) × (used ≤ off + k + 1)
unfolding varint_loop
varint_loop_bounds k [] out shift off v used hs ho e = cc
varint_loop_bounds zero (b ∷ src) out shift off v used hs ho e =
    let at63 : shift ≡ 63 = omega arith in
    let fits = top_group_fits b out (subst (λ n. out < 2 ^ n) at63 ho) in
    let e' = subst (λ n. varint_loop (b ∷ src) out n off ≡ some (v, used)) at63 e in
    ground (arith, fits, e', varint_loop_over src (out + b % 128 * 2 ^ 63 % 2 ^ 64) 70 (off + 1))
varint_loop_bounds (suc k) (b ∷ src) out shift off v used hs ho e =
    let out' = out + b % 128 * 2 ^ shift % 2 ^ 64 in
    ground (
      arith,
      group_fits b out shift ho,
      pow_le_64 (shift + 7),
      varint_loop_bounds k src out' (shift + 7) (off + 1) v used,
    )

-- A varint that is read is a uint64, takes between one and ten bytes, and lies within the input.
pub decode_varint_bounds :
    (src : List ℕ) (v used : ℕ)
    → decode_varint src ≡ some (v, used)
    → (v < 2 ^ 64) × (0 < used) × (used ≤ length src) × (used ≤ 10)
unfolding decode_varint
decode_varint_bounds src v used e =
    omega (arith, varint_loop_bounds 9 src 0 0 0 v used refl (omega arith) e)
