-- ===== src/Encoding/Write.antt =====
-- What the encoders write, as a list of bytes spliced into the buffer.
use enigma.Prelude.{
  ℕ, zero, suc, ◌+◌, ◌*◌, ◌/◌, ◌^◌, ◌≡◌, refl, ap, sym, ◌∙◌, subst, arith, List, [], ◌∷◌, ◌++◌,
  length, set, set-append, append_assoc, length-append, replicate, replicate-add, length-replicate,
}
use enigma.Encoding.{Buffer, u8, encode_uint8, encode_loop, write_bytes}

-- The `n` big-endian bytes of a value.
unfoldable pub be_bytes : ℕ → ℕ → List ℕ
be_bytes zero value = []
be_bytes (suc n) value = u8 (value / 2 ^ (n * 8)) ∷ be_bytes n value

pub length-be_bytes : (n value : ℕ) → length (be_bytes n value) ≡ n
unfolding be_bytes
length-be_bytes zero value = refl
length-be_bytes (suc n) value = ap suc (length-be_bytes n value)

pub encode_loop-eq-write :
    (n value : ℕ) (buffer : Buffer) (at : ℕ)
    → encode_loop value n buffer at ≡ write_bytes (be_bytes n value) buffer at
unfolding encode_loop write_bytes be_bytes
encode_loop-eq-write zero value buffer at = refl
encode_loop-eq-write (suc n) value buffer at =
    encode_loop-eq-write n value (set buffer at (u8 (value / 2 ^ (n * 8)))) (at + 1)

-- A write over bytes of the same number, between what stands before and after.
pub write_bytes-splice :
    (new old front back : List ℕ)
    → length old ≡ length new
    → write_bytes new (front ++ (old ++ back)) (length front) ≡ front ++ (new ++ back)
unfolding write_bytes
write_bytes-splice [] [] front back h = refl
write_bytes-splice [] (o ∷ old) front back h = absurd (omega arith)
write_bytes-splice (b ∷ new) [] front back h = absurd (omega arith)
write_bytes-splice (b ∷ new) (o ∷ old) front back h =
    let e : length front + 1 ≡ length (front ++ (b ∷ [])) =
      omega (arith, length-append front (b ∷ [])) in
    rw (set-append front (old ++ back) o b, e)
      (ap (λ l. write_bytes new l (length (front ++ (b ∷ []))))
          (sym (append_assoc front (b ∷ []) (old ++ back)))
        ∙ write_bytes-splice new old (front ++ (b ∷ [])) back (omega arith)
        ∙ append_assoc front (b ∷ []) (new ++ back))

-- A buffer whose first bytes are written and whose last `left` bytes are still zero, with the offset
-- at the first of those.
pub record Filled (state : Buffer × ℕ) (written : List ℕ) (left : ℕ) : Type 0 where
  pub contents : state.0 ≡ written ++ replicate left 0
  pub offset : state.1 ≡ length written

pub fresh-Filled : (n : ℕ) → Filled (replicate n 0, 0) [] n
fresh-Filled n = record { contents = refl; offset = refl }

pub write_bytes-Filled :
    (bytes : List ℕ) (buffer : Buffer) (at : ℕ) (written : List ℕ) (room left : ℕ)
    → room ≡ length bytes + left
    → Filled (buffer, at) written room
    → Filled (write_bytes bytes buffer at, at + length bytes) (written ++ bytes) left
write_bytes-Filled bytes buffer at written room left e f = record {
  contents =
      rw (f.contents, f.offset, e, replicate-add {A = ℕ} (length bytes) left 0)
        (write_bytes-splice bytes (replicate (length bytes) 0) written (replicate left 0)
            (length-replicate (length bytes) 0)
          ∙ sym (append_assoc written bytes (replicate left 0)));
  offset = omega (arith, f.offset, length-append written bytes);
}

pub encode_loop-Filled :
    (n value : ℕ) (buffer : Buffer) (at : ℕ) (written : List ℕ) (room left : ℕ)
    → room ≡ n + left
    → Filled (buffer, at) written room
    → Filled (encode_loop value n buffer at, at + n) (written ++ be_bytes n value) left
encode_loop-Filled n value buffer at written room left e f =
    let l = length-be_bytes n value in
    rw encode_loop-eq-write (
      subst
        (λ k.
          Filled (write_bytes (be_bytes n value) buffer at, at + k) (written ++ be_bytes n value)
            left)
        l (write_bytes-Filled (be_bytes n value) buffer at written room left (omega (arith, l)) f))

pub encode_uint8-Filled :
    (value : ℕ) (buffer : Buffer) (at : ℕ) (written : List ℕ) (room left : ℕ)
    → room ≡ 1 + left
    → Filled (buffer, at) written room
    → Filled (encode_uint8 value buffer at) (written ++ (u8 value ∷ [])) left
unfolding encode_uint8 write_bytes
encode_uint8-Filled value buffer at written room left e f =
    write_bytes-Filled (u8 value ∷ []) buffer at written room left e f
