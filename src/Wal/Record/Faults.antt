-- ===== src/Wal/Record/Faults.antt =====
-- Where `deserialize_wal_record` reads past the end of its buffer.
use enigma.Prelude.{
  ℕ, ◌+◌, ◌≤◌, ◌<◌, ◌≡◌, arith, List, [], ◌∷◌, length, some, none, zero, suc, get_elem?,
  Option-cases, inl, inr, ◌∙◌,
}
use enigma.Error.{fault}
use enigma.Encoding.{decode_uint32, decode_loop, Buffer}
use enigma.Encoding.RoundTrip.{decode_step}
use enigma.Wal.Record.{deserialize_wal_record}
use enigma.Wal.Record.RoundTrip.{HasHeader, HasFields}

get_elem?-lt : (l : List ℕ) (i : ℕ) {b : ℕ} → get_elem? l i ≡ some b → i < length l
get_elem?-lt [] i h = cc
get_elem?-lt (x ∷ l) zero h = omega arith
get_elem?-lt (x ∷ l) (suc i) h = omega (arith, get_elem?-lt l i h)

decode_loop-none :
    (n total : ℕ) (buffer : Buffer) (at : ℕ)
    → at ≤ length buffer
    → length buffer < at + n
    → decode_loop n total buffer at ≡ none
decode_loop-none zero total buffer at h k = absurd (omega arith)
decode_loop-none (suc n) total buffer at h k = elim (Option-cases (get_elem? buffer at)) [
  | inl e ↦ unfold decode_loop in rw (e, decode_loop)
  | inr (b, e) ↦
      decode_step n total buffer at e
      ∙ decode_loop-none n _ buffer (at + 1) (omega (arith, get_elem?-lt buffer at e)) (omega arith)
]

-- A buffer with a valid header and checksum whose key ends less than four bytes before its end makes
-- the deserializer read the value's length outside the buffer.
pub deserialize_wal_record-overread :
    (buffer : Buffer) (body_length op_type timestamp sequence key_len : ℕ)
    → HasHeader buffer body_length
    → HasFields buffer op_type timestamp sequence key_len
    → 29 + key_len ≤ length buffer
    → length buffer < 29 + key_len + 4
    → deserialize_wal_record buffer ≡ fault
unfolding deserialize_wal_record decode_uint32
deserialize_wal_record-overread buffer body_length op_type timestamp sequence key_len h f lo hi =
    ground (arith, decode_loop-none 4 0 buffer (29 + key_len))
