-- ===== src/Hash.antt =====
-- src/hash.cpp: a hash of 32 bits, in the manner of Murmur.
mod Tests
use enigma.Prelude.{ℕ, ◌+◌, ◌*◌, ◌/◌, ◌%◌, ◌^◌, bit_xor, Option, none, some, List, [], ◌∷◌, length}
use enigma.Encoding.{u8, decode_uint32}

-- `uint32_t` arithmetic.
abbrev pub u32 : ℕ → ℕ
u32 n = n % 2 ^ 32

abbrev pub multiplier : ℕ
multiplier = 0xc6a4a793

-- One round on four bytes, read as a big-endian number.
abbrev mix : ℕ → ℕ → ℕ
mix h w = let t = u32 (u32 (h + w) * multiplier) in bit_xor t (t / 2 ^ 16)

-- The end of the `switch`: `h *= m; h ^= (h >> r);`
abbrev finish_tail : ℕ → ℕ
finish_tail h = let t = u32 (h * multiplier) in bit_xor t (t / 2 ^ 24)

-- The loop, and the `switch` on the bytes that remain. The four bytes are there, so that the decoder
-- does not fail.
unfoldable pub hash_loop : ℕ → List ℕ → ℕ
unfolding decode_uint32
hash_loop h (a ∷ b ∷ c ∷ d ∷ rest) = elim (decode_uint32 (a ∷ b ∷ c ∷ d ∷ []) 0) [
  | none ↦ h
  | some w ↦ hash_loop (mix h w) rest
]
hash_loop h (a ∷ b ∷ c ∷ []) =
    finish_tail (u32 (u32 (u32 (h + u8 c * 2 ^ 16) + u8 b * 2 ^ 8) + u8 a))
hash_loop h (a ∷ b ∷ []) = finish_tail (u32 (u32 (h + u8 b * 2 ^ 8) + u8 a))
hash_loop h (a ∷ []) = finish_tail (u32 (h + u8 a))
hash_loop h [] = h

-- `Hash`. `n * m` is a product of 64 bits, of which the 32 lowest remain.
unfoldable pub hash : List ℕ → ℕ → ℕ
unfolding hash_loop
hash data_bytes seed =
    hash_loop (u32 (bit_xor seed (length data_bytes * multiplier % 2 ^ 64))) data_bytes
