-- ===== src/Protobuf/Tests.antt =====
-- ProtobufLite at concrete inputs.
use linux_highperf_proxy.Base.{◌≡◌, refl, [], ◌∷◌, ◌++◌, some, length, arith}
use linux_highperf_proxy.Base.Bytes.{codes}
use linux_highperf_proxy.Base.Outcome.{ok, fault}
use linux_highperf_proxy.Protobuf.{
  encode_varint, decode_varint, encode_string_field1, skip_field, read_string, field_loop,
  decode_string_field1,
}
use linux_highperf_proxy.Protobuf.Varint.{decode_varint-encode_varint}
use linux_highperf_proxy.Protobuf.Fields.{
  decode_string_field1-encode_string_field1, decode_string_field1_wraps,
}

encode_300 : encode_varint 300 [] ≡ 0xac ∷ 0x02 ∷ []
unfolding encode_varint
encode_300 = refl

decode_300 : decode_varint (0xac ∷ 0x02 ∷ 7 ∷ []) ≡ some (300, 2)
unfolding decode_varint
decode_300 = refl

skips_unknown : decode_string_field1 (0x10 ∷ 0x05 ∷ 0x0A ∷ 2 ∷ codes "hi") ≡ ok (codes "hi")
unfolding decode_string_field1 field_loop skip_field read_string decode_varint
skips_unknown = refl

decode_varint-encode_varint_example :
    decode_varint (encode_varint 300 [] ++ (9 ∷ [])) ≡ some (300, length (encode_varint 300 []))
decode_varint-encode_varint_example = decode_varint-encode_varint 300 (9 ∷ []) (omega arith)

decode_string_field1-encode_string_field1_example :
    decode_string_field1 (encode_string_field1 (codes "hello")) ≡ ok (codes "hello")
decode_string_field1-encode_string_field1_example =
    decode_string_field1-encode_string_field1 (codes "hello") (omega arith)

decode_string_field1_wraps_example :
    decode_string_field1 (0x0A ∷ encode_varint 0xffff_ffff_ffff_ffff [] ++ codes "x") ≡ fault
unfolding encode_varint
decode_string_field1_wraps_example =
    decode_string_field1_wraps 0xffff_ffff_ffff_ffff (codes "x") (omega arith) (omega arith)
      (omega arith)
