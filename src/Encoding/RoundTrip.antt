-- ===== src/Encoding/RoundTrip.antt =====
-- Decoding gives back what was encoded.
use enigma.Prelude.{
  ℕ, zero, suc, ◌+◌, ◌*◌, ◌/◌, ◌%◌, ◌^◌, ◌≤◌, ◌<◌, ◌≡◌, refl, ap, sym, ◌∙◌, subst, arith, List, [],
  ◌∷◌, ◌++◌, length, append_assoc, length-append, take, drop, take-append-drop, length-take,
  get_elem?, some, length-drop, bit_or,
}
use enigma.Prelude.Bits.{bit_or-shifted, zero-bit_or}
use enigma.Encoding.{
  Buffer, u8, encode_loop, encode_uint32, encode_uint64, encode_uint16, decode_loop, decode_uint16,
  decode_uint32, decode_uint64,
}
use enigma.Encoding.Write.{be_bytes, length-be_bytes, encode_loop-eq-write, write_bytes-splice}
use mathlib.Core.Path.{subst₂}
use native.Mathlib.Numerals.{towards_suc}
use native.Mathlib.Nat.{
  div-div-eq-div-mul, one-le-pow, div-eq_of_lt, div-add-mod, mul-lt-mul_of_pos_right,
}

-- The element that follows a prefix.
pub get_elem?-middle :
    (front : List ℕ) (b : ℕ) (back : List ℕ)
    → get_elem? (front ++ (b ∷ back)) (length front) ≡ some b
get_elem?-middle [] b back = refl
get_elem?-middle (x ∷ front) b back = get_elem?-middle front b back

pow_byte : (n : ℕ) → 2 ^ (suc n * 8) ≡ 2 ^ (n * 8) * 256
pow_byte n = let e : suc n * 8 ≡ n * 8 + 8 = omega arith in rw e (simp towards_suc (omega arith))

digit_fits : (d p : ℕ) → 0 < p → d % 256 * p < p * 256
digit_fits d p h =
    let lt : d % 256 < 256 = omega arith in omega (arith, mul-lt-mul_of_pos_right lt h)

-- One byte further down: the digits above it move up by one byte.
next_digit :
    (n value : ℕ)
    → bit_or
        (value / 2 ^ (suc n * 8) * 2 ^ (suc n * 8))
        (u8 (u8 (value / 2 ^ (n * 8))) * 2 ^ (n * 8))
      ≡ value / 2 ^ (n * 8) * 2 ^ (n * 8)
next_digit n value =
    let p = 2 ^ (n * 8) in
    let d = value / p in
    let byte : d % 256 % 256 ≡ d % 256 = omega arith in
    let quotient : value / 2 ^ (suc n * 8) ≡ d / 256 =
      rw pow_byte (sym (div-div-eq-div-mul value p 256)) in
    let room : d % 256 * p < 2 ^ (suc n * 8) =
      rw pow_byte (digit_fits d p (one-le-pow (n * 8) 2 (omega arith))) in
    rw (byte, quotient, bit_or-shifted (suc n * 8) (d / 256) (d % 256 * p) room, pow_byte n)
      (split d p)
  where
    split : (d p : ℕ) → d / 256 * (p * 256) + d % 256 * p ≡ d * p
    split d p = omega (arith, ap (λ (t : ℕ). t * p) (div-add-mod d 256))

pub decode_step :
    (n total : ℕ) (buffer : Buffer) (at : ℕ) {b : ℕ}
    → get_elem? buffer at ≡ some b
    → decode_loop (suc n) total buffer at
      ≡ decode_loop n (bit_or total (u8 b * 2 ^ (n * 8))) buffer (at + 1)
unfolding decode_loop
decode_step n total buffer at h = rw (h, decode_loop)

-- With the bytes above `n` already in the total, the loop adds the rest of the value.
pub decode_loop-be_bytes :
    (n value : ℕ) (front back : List ℕ)
    → decode_loop n
        (value / 2 ^ (n * 8) * 2 ^ (n * 8))
        (front ++ (be_bytes n value ++ back))
        (length front)
      ≡ some value
unfolding be_bytes
decode_loop-be_bytes zero value front back = unfold decode_loop in ap some (omega arith)
decode_loop-be_bytes (suc n) value front back =
    let d = u8 (value / 2 ^ (n * 8)) in
    let e : length front + 1 ≡ length (front ++ (d ∷ [])) =
      omega (arith, length-append front (d ∷ [])) in
    decode_step n _ (front ++ (d ∷ (be_bytes n value ++ back))) (length front)
      (get_elem?-middle front d (be_bytes n value ++ back))
    ∙ rw (next_digit n value, e, sym (append_assoc front (d ∷ []) (be_bytes n value ++ back)))
        (decode_loop-be_bytes n value (front ++ (d ∷ [])) back)

-- A value that fits `n` bytes is read back from them, wherever they stand.
pub decode_loop-fits :
    (n value : ℕ) (front back : List ℕ)
    → value < 2 ^ (n * 8)
    → decode_loop n 0 (front ++ (be_bytes n value ++ back)) (length front) ≡ some value
decode_loop-fits n value front back h =
    let e : value / 2 ^ (n * 8) * 2 ^ (n * 8) ≡ 0 = rw (div-eq_of_lt h) (omega arith) in
    rw e at (decode_loop-be_bytes n value front back)

-- `encode_loop` replaces the `n` bytes at `at` and nothing else.
pub encode_loop-splice :
    (n value : ℕ) (front old back : List ℕ)
    → length old ≡ n
    → encode_loop value n (front ++ (old ++ back)) (length front)
      ≡ front ++ (be_bytes n value ++ back)
encode_loop-splice n value front old back h =
    encode_loop-eq-write n value _ (length front)
    ∙ write_bytes-splice (be_bytes n value) old front back (h ∙ sym (length-be_bytes n value))

-- The same with the place given by an offset: cut the buffer there.
pub encode_loop-at :
    (n value : ℕ) (buffer : Buffer) (at : ℕ)
    → at + n ≤ length buffer
    → encode_loop value n buffer at
      ≡ take at buffer ++ (be_bytes n value ++ drop n (drop at buffer))
encode_loop-at n value buffer at h =
    let front = take at buffer in
    let old = take n (drop at buffer) in
    let back = drop n (drop at buffer) in
    let at_end : length front ≡ at = length-take at buffer (omega arith) in
    let rest = length-drop at buffer (omega arith) in
    let cut : front ++ (old ++ back) ≡ buffer =
      ap (λ l. front ++ l) (take-append-drop n (drop at buffer)) ∙ take-append-drop at buffer in
    subst₂ (λ b a. encode_loop value n b a ≡ front ++ (be_bytes n value ++ back)) cut at_end
      (encode_loop-splice n value front old back (length-take n (drop at buffer) (omega arith)))

pub decode_loop-encode_loop :
    (n value : ℕ) (buffer : Buffer) (at : ℕ)
    → at + n ≤ length buffer
    → value < 2 ^ (n * 8)
    → decode_loop n 0 (encode_loop value n buffer at) at ≡ some value
decode_loop-encode_loop n value buffer at room fits =
    let at_end : length (take at buffer) ≡ at = length-take at buffer (omega arith) in
    rw (encode_loop-at n value buffer at room) (
      subst
        (λ a.
          decode_loop n 0 (take at buffer ++ (be_bytes n value ++ drop n (drop at buffer))) a
          ≡ some value)
        at_end (decode_loop-fits n value (take at buffer) (drop n (drop at buffer)) fits))

-- A uint32 written at an offset with room for it is read back from there, and the encoder returns
-- the offset four bytes on.
pub decode_uint32-encode_uint32 :
    (value : ℕ) (buffer : Buffer) (offset : ℕ)
    → offset + 4 ≤ length buffer
    → value < 2 ^ 32
    → (decode_uint32 (encode_uint32 value buffer offset).0 offset ≡ some value)
      × ((encode_uint32 value buffer offset).1 ≡ offset + 4)
unfolding decode_uint32 encode_uint32
decode_uint32-encode_uint32 value buffer offset room fits =
    (decode_loop-encode_loop 4 value buffer offset room fits, refl)

-- A uint64 written at an offset with room for it is read back from there, and the encoder returns
-- the offset eight bytes on.
pub decode_uint64-encode_uint64 :
    (value : ℕ) (buffer : Buffer) (offset : ℕ)
    → offset + 8 ≤ length buffer
    → value < 2 ^ 64
    → (decode_uint64 (encode_uint64 value buffer offset).0 offset ≡ some value)
      × ((encode_uint64 value buffer offset).1 ≡ offset + 8)
unfolding decode_uint64 encode_uint64
decode_uint64-encode_uint64 value buffer offset room fits =
    (decode_loop-encode_loop 8 value buffer offset room fits, refl)

-- `decode_uint16`, which is written without a loop, agrees with the loop of the wider decoders.
pub decode_uint16-eq-loop :
    (buffer : Buffer) (offset : ℕ) → decode_uint16 buffer offset ≡ decode_loop 2 0 buffer offset
unfolding decode_uint16 decode_loop
decode_uint16-eq-loop buffer offset = grind (arith, zero-bit_or)

-- A uint16 written at an offset with room for it is read back from there.
pub decode_uint16-encode_uint16 :
    (value : ℕ) (buffer : Buffer) (offset : ℕ)
    → offset + 2 ≤ length buffer
    → value < 2 ^ 16
    → decode_uint16 (encode_uint16 value buffer offset).0 offset ≡ some value
unfolding encode_uint16
decode_uint16-encode_uint16 value buffer offset room fits =
    decode_uint16-eq-loop _ offset ∙ decode_loop-encode_loop 2 value buffer offset room fits
