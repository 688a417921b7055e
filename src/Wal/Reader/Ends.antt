-- ===== src/Wal/Reader/Ends.antt =====
-- The loop over a log ends on every file.
use enigma.Prelude.{
  ℕ, zero, suc, ◌+◌, ◌-◌, ◌≡◌, ◌≢◌, ◌<◌, ◌≤◌, refl, arith, List, [], ◌∷◌, length, take, drop,
  replicate, none, some, Option, length-append, length-replicate, ◌==◌, ltb, ap, Bool-cases, inl,
  inr, false,
}
use native.Mathlib.Decide.{dec_lt}
use enigma.Error.{Result, ok, err, fault}
use enigma.Encoding.{decode_uint32}
use enigma.Wal.Record.{WalRecord, deserialize_wal_record}
use enigma.Wal.Reader.{
  Read, Reads, overlay, record_size, next, read_all, finish_next, read_body, read_header, prepend,
}

prepend-ne-none :
    (r : WalRecord) (rest : Option (Result (List WalRecord))) → rest ≢ none → prepend r rest ≢ none
prepend-ne-none r none h = λ q. h refl
prepend-ne-none r (some (err e)) h = λ q. cc
prepend-ne-none r (some fault) h = λ q. cc
prepend-ne-none r (some (ok rs)) h = λ q. cc

deserialize-enough :
    (buffer : List ℕ) {r : WalRecord} → deserialize_wal_record buffer ≡ ok r → 33 ≤ length buffer
unfolding deserialize_wal_record
deserialize-enough buffer h = ground arith

length-take-le : (n : ℕ) (l : List ℕ) → length (take n l) ≤ n
length-take-le zero l = omega arith
length-take-le (suc n) [] = omega arith
length-take-le (suc n) (x ∷ l) = omega (arith, length-take-le n l)

length-overlay :
    (bytes : List ℕ) (size : ℕ) → length bytes ≤ size → length (overlay bytes size) ≡ size
length-overlay bytes size h = omega (
  arith,
  length-append bytes (replicate (size - length bytes) 0),
  length-replicate {A = ℕ} (size - length bytes) 0,
)

finish_next-moves :
    (bytes : List ℕ) (size offset : ℕ) {r : WalRecord} {offset' : ℕ}
    → length bytes ≤ size
    → finish_next (ok bytes) size offset ≡ (ok r, offset')
    → offset + 33 ≤ offset'
finish_next-moves bytes size offset fits h =
    let e = ap (λ p. p.0) h in
    let o = ap (λ p. p.1) h in
    omega (arith, deserialize-enough (overlay bytes size) e, length-overlay bytes size fits, o)

drop-short : (n : ℕ) (l : List ℕ) → length l ≤ n → drop n l ≡ []
drop-short zero [] h = refl
drop-short zero (x ∷ l) h = absurd (omega arith)
drop-short (suc n) [] h = refl
drop-short (suc n) (x ∷ l) h = drop-short n l (omega arith)

read_body-moves :
    (file : List ℕ) (read : Read) (offset : ℕ) (o : Option ℕ) {r : WalRecord} {offset' : ℕ}
    → Reads file read
    → read_body read offset o ≡ (ok r, offset')
    → offset + 33 ≤ offset'
read_body-moves file read offset none h e = cc (ap (λ p. p.0) e)
read_body-moves file read offset (some b) h e = elim (Bool-cases (ltb b 25)) [
  | inl short ↦ cc (ap (λ p. p.0) (rw short at e))
  | inr long ↦
      let size = record_size b in
      finish_next-moves (take size (drop offset file)) size offset
        (length-take-le size (drop offset file)) (rw (long, h size offset) at e)
]

read_header-moves :
    (file : List ℕ) (read : Read) (offset : ℕ) (bytes : List ℕ) {r : WalRecord} {offset' : ℕ}
    → Reads file read
    → read_header read offset (ok bytes) ≡ (ok r, offset')
    → (0 < length bytes) × (offset + 33 ≤ offset')
read_header-moves file read offset [] h e = cc (ap (λ p. p.0) e)
read_header-moves file read offset (b ∷ bytes) h e =
    let some_bytes : (suc (length bytes) == 0) ≡ false = ground arith in
    (
      omega arith,
      read_body-moves file read offset (decode_uint32 (overlay (b ∷ bytes) 9) 0) h
          (rw some_bytes at e),
    )

-- A record that `next` returns takes at least 33 bytes, and begins inside the file.
pub next-moves :
    (file : List ℕ) (read : Read) (offset : ℕ) {r : WalRecord} {offset' : ℕ}
    → Reads file read
    → next read offset ≡ (ok r, offset')
    → (offset < length file) × (offset + 33 ≤ offset')
unfolding next
next-moves file read offset h e =
    let (bytes, moves) =
      read_header-moves file read offset (take 8 (drop offset file)) h (rw (h 8 offset) at e) in
    (inside bytes, moves)
  where
    inside : 0 < length (take 8 (drop offset file)) → offset < length file
    inside bytes = elim (dec_lt offset (length file)) [
      | yes lt ↦ lt
      | no ge ↦
          let e : length (take 8 (drop offset file)) ≡ 0 =
            ap (λ l. length (take 8 l)) (drop-short offset file (omega arith)) in
          absurd (omega arith)
    ]

read_all-ne-none :
    (fuel : ℕ) (file : List ℕ) (read : Read) (offset : ℕ)
    → Reads file read
    → length file < offset + fuel
    → 0 < fuel
    → read_all fuel read offset ≢ none
read_all-ne-none zero file read offset h enough pos = absurd (omega arith)
read_all-ne-none (suc fuel) file read offset h enough pos =
    collect-ne-none (next read offset) refl (read_all-ne-none fuel file read)
  where
    collect-ne-none :
        (p : Result WalRecord × ℕ)
        → next read offset ≡ p
        → ((o : ℕ)
            → Reads file read
            → length file < o + fuel
            → 0 < fuel
            → read_all fuel read o ≢ none)
        → read_all (suc fuel) read offset ≢ none
    collect-ne-none (err x, o) e ih = unfold read_all in rw e (λ q. cc)
    collect-ne-none (fault, o) e ih = unfold read_all in rw e (λ q. cc)
    collect-ne-none (ok r, o) e ih =
        let (inside, moves) = next-moves file read offset h e in
        let later = ih o h (omega arith) (omega arith) in
        unfold read_all in rw e (prepend-ne-none r (read_all fuel read o) later)

-- The loop over any file ends within as many rounds as the file has bytes, and one more.
pub read_all-ends :
    (file : List ℕ) (read : Read) → Reads file read → read_all (suc (length file)) read 0 ≢ none
read_all-ends file read h =
    read_all-ne-none (suc (length file)) file read 0 h (omega arith) (omega arith)
