-- ===== src/Encoding/Tests.antt =====
-- Runs of the encoders, and their theorems at concrete inputs.
use enigma.Prelude.{some, [], ◌∷◌, ◌≡◌, refl, arith, replicate}
use enigma.Encoding.{
  Buffer, encode_loop, encode_uint16, encode_uint32, encode_uint64, decode_uint16, decode_uint32,
  decode_uint64,
}
use enigma.Encoding.RoundTrip.{
  decode_uint16-encode_uint16, decode_uint32-encode_uint32, decode_uint64-encode_uint64,
}

abbrev zeros : Buffer
zeros = replicate 9 0

big_endian : (encode_uint32 0x01020304 zeros 2).0 ≡ 0 ∷ 0 ∷ 1 ∷ 2 ∷ 3 ∷ 4 ∷ 0 ∷ 0 ∷ 0 ∷ []
unfolding encode_uint32 encode_loop
big_endian = refl

decode_uint32-encode_uint32_example :
    (decode_uint32 (encode_uint32 77 zeros 5).0 5 ≡ some 77) × ((encode_uint32 77 zeros 5).1 ≡ 9)
decode_uint32-encode_uint32_example =
    decode_uint32-encode_uint32 77 zeros 5 (omega arith) (omega arith)

decode_uint64-encode_uint64_example :
    (decode_uint64 (encode_uint64 77 zeros 1).0 1 ≡ some 77) × ((encode_uint64 77 zeros 1).1 ≡ 9)
decode_uint64-encode_uint64_example =
    decode_uint64-encode_uint64 77 zeros 1 (omega arith) (omega arith)

decode_uint16-encode_uint16_example : decode_uint16 (encode_uint16 77 zeros 7).0 7 ≡ some 77
decode_uint16-encode_uint16_example =
    decode_uint16-encode_uint16 77 zeros 7 (omega arith) (omega arith)
