-- ===== src/Protobuf.antt =====
-- src/protocol/ProtobufLite.cpp: varints, and a message whose field 1 is a string.
-- Masks and shifts are written as arithmetic: x & 0x7F is x % 128, x >> 7 is x / 128, and a byte has
-- its top bit set if it is 128 or more.
pub mod Varint
pub mod Fields
mod Tests
use linux_highperf_proxy.Base.{
  ℕ, zero, suc, ◌+◌, ◌-◌, ◌*◌, ◌/◌, ◌%◌, ◌^◌, ◌<◌, List, [], ◌∷◌, ◌++◌, Option, none, some, Bool,
  ◌&&◌, ltb, leb, ◌==◌, if◌then◌else◌, length, take, drop, arith,
}
use linux_highperf_proxy.Base.Outcome.{Outcome, ok, failed, fault, stuck}
use linux_highperf_proxy.Base.Order.{lt_wf}
use mathlib.Core.Logic.{dite}
use mathlib.Core.WellFounded.{Acc}
use native.Mathlib.Decide.{dec_lt}

-- while (v >= 0x80) { push((v & 0x7F) | 0x80); v >>= 7; } push(v & 0x7F);
pub push_groups : List ℕ → (v : ℕ) → Acc ◌<◌ v → List ℕ
push_groups out v (Acc.intro _ smaller) =
    dite (dec_lt v 128) (λ _. out ++ (v % 128 ∷ []))
      (λ h. push_groups (out ++ ((v % 128 + 128) ∷ [])) (v / 128) (smaller (v / 128) (omega arith)))

pub encode_varint : ℕ → List ℕ → List ℕ
unfolding push_groups lt_wf dec_lt
encode_varint v out = push_groups out v (lt_wf.apply v)

-- `out` has no bit at or above `shift`, so the source's `|=` is a sum; what is shifted past bit 63 is
-- lost. The result is the value and the number of bytes read.
pub varint_loop : List ℕ → ℕ → ℕ → ℕ → Option (ℕ × ℕ)
varint_loop [] out shift off = none
varint_loop (b ∷ rest) out shift off =
    let out' = out + b % 128 * 2 ^ shift % 2 ^ 64 in
    let more = varint_loop rest out' (shift + 7) (off + 1) in
    if leb shift 63 then if ltb b 128 then some (out', off + 1) else more else none

pub decode_varint : List ℕ → Option (ℕ × ℕ)
unfolding varint_loop
decode_varint src = varint_loop src 0 0 0

-- tag = (1 << 3) | 2 = 0x0A, then the length, then the bytes.
pub encode_string_field1 : List ℕ → List ℕ
encode_string_field1 s = encode_varint (length s % 2 ^ 64) (0x0A ∷ []) ++ s

-- `used + n` is a sum of uint64: it wraps.
skip_field : ℕ → List ℕ → Option ℕ
skip_field wire rest =
    if wire == 0
    then (elim (decode_varint rest) [ none ↦ none | some (_, used) ↦ some used ])
    else if wire == 2
    then (elim (decode_varint rest) [
      | none ↦ none
      | some (n, used) ↦
          if ltb (length rest) ((used + n) % 2 ^ 64) then none else some ((used + n) % 2 ^ 64)
    ])
    else none

-- Field 1 of wire type 2, from its length on. Where `off + n` has wrapped, the end that the code
-- hands to assign() lies before the start.
read_string : List ℕ → ℕ → Outcome (List ℕ)
read_string src off = elim (decode_varint (drop off src)) [
  | none ↦ failed
  | some (n, used) ↦
      if ltb (length src) ((off + used + n) % 2 ^ 64)
      then failed
      else if ltb (length src) (off + used + n)
      then fault
      else ok (take n (drop (off + used) src))
]

-- One round takes a byte at least, so more fuel than bytes is enough.
field_loop : ℕ → List ℕ → ℕ → Outcome (List ℕ)
field_loop zero src off = stuck
field_loop (suc fuel) src off =
    if ltb off (length src)
    then (elim (decode_varint (drop off src)) [
      | none ↦ failed
      | some (key, used) ↦
          if (key / 8 % 2 ^ 32 == 1) && (key % 8 == 2)
          then read_string src (off + used)
          else (elim (skip_field (key % 8) (drop (off + used) src)) [
            | none ↦ failed
            | some skip ↦ field_loop fuel src (off + used + skip)
          ])
    ])
    else ok []

pub decode_string_field1 : List ℕ → Outcome (List ℕ)
decode_string_field1 src = field_loop (suc (length src)) src 0
