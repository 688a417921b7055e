-- ===== src/Encoding/Segment.antt =====
-- Where a piece of bytes stands in a buffer, and what the decoders read there.
use enigma.Prelude.{
  ℕ, ◌+◌, ◌*◌, ◌^◌, ◌≤◌, ◌<◌, ◌≡◌, refl, sym, ◌∙◌, ap, subst, arith, some, List, [], ◌∷◌, ◌++◌,
  length, take, drop, length-append, append_assoc, take-length-append, drop-length-append,
}
use enigma.Encoding.{Buffer, decode_uint8, decode_uint32, decode_uint64, decode_loop}
use enigma.Encoding.Write.{be_bytes}
use enigma.Encoding.RoundTrip.{decode_loop-fits, get_elem?-middle}

-- The piece stands at the offset.
pub record At (buffer : Buffer) (offset : ℕ) (piece : List ℕ) : Type 0 where
  pub front : List ℕ
  pub back : List ℕ
  pub contents : buffer ≡ front ++ (piece ++ back)
  pub begins : length front ≡ offset

pub At-whole : (front piece back : List ℕ) → At (front ++ (piece ++ back)) (length front) piece
At-whole front piece back = record { front = front; back = back; contents = refl; begins = refl }

pub At-first :
    (buffer : Buffer) (offset : ℕ) (x y : List ℕ) → At buffer offset (x ++ y) → At buffer offset x
At-first buffer offset x y a = record {
  front = a.front;
  back = y ++ a.back;
  contents = a.contents ∙ ap (λ l. a.front ++ l) (append_assoc x y a.back);
  begins = a.begins;
}

pub At-second :
    (buffer : Buffer) (offset : ℕ) (x y : List ℕ)
    → At buffer offset (x ++ y)
    → At buffer (offset + length x) y
At-second buffer offset x y a = record {
  front = a.front ++ x;
  back = a.back;
  contents =
      a.contents
      ∙ ap (λ l. a.front ++ l) (append_assoc x y a.back)
      ∙ sym (append_assoc a.front x (y ++ a.back));
  begins = omega (arith, length-append a.front x, a.begins);
}

pub At-end :
    (buffer : Buffer) (offset : ℕ) (x : List ℕ)
    → At buffer offset x
    → offset + length x ≤ length buffer
At-end buffer offset x a = omega (
  arith,
  a.begins,
  ap length a.contents,
  length-append a.front (x ++ a.back),
  length-append x a.back,
)

At-loop :
    (n value : ℕ) (buffer : Buffer) (offset : ℕ)
    → value < 2 ^ (n * 8)
    → At buffer offset (be_bytes n value)
    → decode_loop n 0 buffer offset ≡ some value
At-loop n value buffer offset fits a = rw a.contents (
    subst (λ k. decode_loop n 0 (a.front ++ (be_bytes n value ++ a.back)) k ≡ some value) a.begins
      (decode_loop-fits n value a.front a.back fits))

pub At-uint32 :
    (value : ℕ) (buffer : Buffer) (offset : ℕ)
    → value < 2 ^ 32
    → At buffer offset (be_bytes 4 value)
    → decode_uint32 buffer offset ≡ some value
unfolding decode_uint32
At-uint32 value buffer offset fits a = At-loop 4 value buffer offset fits a

pub At-uint64 :
    (value : ℕ) (buffer : Buffer) (offset : ℕ)
    → value < 2 ^ 64
    → At buffer offset (be_bytes 8 value)
    → decode_uint64 buffer offset ≡ some value
unfolding decode_uint64
At-uint64 value buffer offset fits a = At-loop 8 value buffer offset fits a

pub At-uint8 :
    (value : ℕ) (buffer : Buffer) (offset : ℕ)
    → At buffer offset (value ∷ [])
    → decode_uint8 buffer offset ≡ some value
unfolding decode_uint8
At-uint8 value buffer offset a = rw a.contents (
    subst (λ k. decode_uint8 (a.front ++ (value ∷ a.back)) k ≡ some value) a.begins
      (get_elem?-middle a.front value a.back))

pub At-take :
    (buffer : Buffer) (offset : ℕ) (x : List ℕ)
    → At buffer offset x
    → take (length x) (drop offset buffer) ≡ x
At-take buffer offset x a = rw a.contents (
    subst (λ k. take (length x) (drop k (a.front ++ (x ++ a.back))) ≡ x) a.begins
      (rw (drop-length-append a.front (x ++ a.back)) (take-length-append x a.back)))
