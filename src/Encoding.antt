-- ===== src/Encoding.antt =====
-- src/encoding.cpp: big-endian integers in a byte buffer. A buffer is a list of bytes; a write
-- outside it changes nothing in the model (the header asks the caller for the room), and a read
-- outside it is `none`. An encoder returns the buffer and the offset past what it wrote.
pub mod Write
pub mod RoundTrip
pub mod Segment
mod Tests
use enigma.Prelude.{
  ℕ, zero, suc, ◌+◌, ◌*◌, ◌/◌, ◌%◌, ◌^◌, bit_or, Option, none, some, List, [], ◌∷◌, length,
  get_elem?, set,
}

abbrev pub Buffer : Type 0
Buffer = List ℕ

-- `static_cast<uint8_t>`
abbrev pub u8 : ℕ → ℕ
u8 n = n % 2 ^ 8

unfoldable pub encode_uint8 : ℕ → Buffer → ℕ → Buffer × ℕ
encode_uint8 value buffer offset = (set buffer offset (u8 value), offset + 1)

unfoldable pub decode_uint8 : Buffer → ℕ → Option ℕ
decode_uint8 buffer offset = get_elem? buffer offset

-- `buffer[offset + i] = (uint8_t)(value >> ((width - 1 - i) * 8))` with `n + 1` rounds left, so
-- that `width - 1 - i` is `n`, and `at` is `offset + i`.
unfoldable pub encode_loop : ℕ → ℕ → Buffer → ℕ → Buffer
encode_loop value zero buffer at = buffer
encode_loop value (suc n) buffer at =
    encode_loop value n (set buffer at (u8 (value / 2 ^ (n * 8)))) (at + 1)

-- `total |= buffer[offset + i] << ((width - 1 - i) * 8)`, counted the same way.
unfoldable pub decode_loop : ℕ → ℕ → Buffer → ℕ → Option ℕ
decode_loop zero total buffer at = some total
decode_loop (suc n) total buffer at = elim (get_elem? buffer at) [
  | none ↦ none
  | some b ↦ decode_loop n (bit_or total (u8 b * 2 ^ (n * 8))) buffer (at + 1)
]

unfoldable pub encode_uint16 : ℕ → Buffer → ℕ → Buffer × ℕ
unfolding encode_loop
encode_uint16 value buffer offset = (encode_loop value 2 buffer offset, offset + 2)

unfoldable pub decode_uint16 : Buffer → ℕ → Option ℕ
decode_uint16 buffer offset = elim (get_elem? buffer offset) [
  | none ↦ none
  | some hi ↦ elim (get_elem? buffer (offset + 1)) [
    | none ↦ none
    | some lo ↦ some (bit_or (u8 hi * 2 ^ 8) (u8 lo))
  ]
]

unfoldable pub encode_uint32 : ℕ → Buffer → ℕ → Buffer × ℕ
unfolding encode_loop
encode_uint32 value buffer offset = (encode_loop value 4 buffer offset, offset + 4)

unfoldable pub decode_uint32 : Buffer → ℕ → Option ℕ
unfolding decode_loop
decode_uint32 buffer offset = decode_loop 4 0 buffer offset

unfoldable pub encode_uint64 : ℕ → Buffer → ℕ → Buffer × ℕ
unfolding encode_loop
encode_uint64 value buffer offset = (encode_loop value 8 buffer offset, offset + 8)

unfoldable pub decode_uint64 : Buffer → ℕ → Option ℕ
unfolding decode_loop
decode_uint64 buffer offset = decode_loop 8 0 buffer offset

-- `memcpy(buffer + at, bytes, length)`
unfoldable pub write_bytes : List ℕ → Buffer → ℕ → Buffer
write_bytes [] buffer at = buffer
write_bytes (b ∷ bs) buffer at = write_bytes bs (set buffer at b) (at + 1)

unfoldable pub encode_bytes : List ℕ → Buffer → ℕ → Buffer × ℕ
unfolding write_bytes
encode_bytes bytes buffer offset = (write_bytes bytes buffer offset, offset + length bytes)
