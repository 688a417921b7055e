-- ===== src/PosixIoEngine/Tests.antt =====
-- System calls that move one byte at a time after an interrupted call, and the theorems at them.
use enigma.Prelude.{
  ℕ, zero, suc, false, some, List, [], ◌∷◌, ◌≡◌, refl, subst, ap, arith, take, drop, length, ◌≤◌,
  ◌<◌, String,
}
use enigma.Error.{ok}
use enigma.PosixIoEngine.{Preading, Pread, read, Writing, WriteCall, append}
use enigma.PosixIoEngine.Transfer.{IsPread, IsWrite, read_complete, append_complete}

abbrev data_file : List ℕ
data_file = 4 ∷ 5 ∷ []

abbrev one_byte : Pread
one_byte zero count offset = Preading.interrupted
one_byte (suc call) zero offset = Preading.bytes_read []
one_byte (suc call) (suc count) zero = Preading.bytes_read (4 ∷ [])
one_byte (suc call) (suc count) (suc zero) = Preading.bytes_read (5 ∷ [])
one_byte (suc call) (suc count) (suc (suc offset)) = Preading.bytes_read []

abbrev taken : Preading → List ℕ
taken (Preading.bytes_read bs) = bs
taken _ = []

Correct : ℕ → ℕ → List ℕ → Type 0
Correct count offset bs =
    (bs ≡ take (length bs) (drop offset data_file))
    × (length bs ≤ count)
    × (0 < count → length bs ≡ 0 → length data_file ≤ offset)

one_byte-Correct :
    (call count offset : ℕ) (bs : List ℕ)
    → one_byte call count offset ≡ Preading.bytes_read bs
    → Correct count offset bs
unfolding Correct
one_byte-Correct zero count offset bs h = absurd (ground arith)
one_byte-Correct (suc call) zero offset bs h =
    subst (Correct 0 offset) (ap taken h) (refl, omega arith, λ p q. absurd (omega arith))
one_byte-Correct (suc call) (suc count) zero bs h =
    subst (Correct (suc count) 0) (ap taken h) (refl, omega arith, λ p q. absurd (omega arith))
one_byte-Correct (suc call) (suc count) (suc zero) bs h =
    subst (Correct (suc count) 1) (ap taken h) (refl, omega arith, λ p q. absurd (omega arith))
one_byte-Correct (suc call) (suc count) (suc (suc offset)) bs h =
    subst (Correct (suc count) (suc (suc offset))) (ap taken h)
      (refl, omega arith, λ p q. omega arith)

one_byte-IsPread : IsPread data_file 1 one_byte
unfolding Correct
one_byte-IsPread = record {
  correct = one_byte-Correct;
  patient = λ call count offset h. patient call count offset h;
  healthy = λ call count offset message h. healthy call count offset message h;
}
  where
    patient : (call count offset : ℕ) → one_byte call count offset ≡ Preading.interrupted → call < 1
    patient zero count offset h = omega arith
    patient (suc call) zero offset h = absurd (ground arith)
    patient (suc call) (suc count) zero h = absurd (ground arith)
    patient (suc call) (suc count) (suc zero) h = absurd (ground arith)
    patient (suc call) (suc count) (suc (suc offset)) h = absurd (ground arith)

    healthy :
        (call count offset : ℕ) (message : String)
        → one_byte call count offset ≡ Preading.failed message
        → ⊥
    healthy zero count offset message h = ground arith
    healthy (suc call) zero offset message h = ground arith
    healthy (suc call) (suc count) zero message h = ground arith
    healthy (suc call) (suc count) (suc zero) message h = ground arith
    healthy (suc call) (suc count) (suc (suc offset)) message h = ground arith

read_complete_example : read 12 false one_byte 9 1 ≡ some (ok (5 ∷ []))
read_complete_example = read_complete data_file 1 one_byte one_byte-IsPread 12 9 1 (omega arith)

-- Every call writes one byte.
abbrev one_more : WriteCall
one_more call count = Writing.bytes_written 1

abbrev count_of : Writing → ℕ
count_of (Writing.bytes_written n) = n
count_of _ = 0

one_more-IsWrite : IsWrite 0 one_more
one_more-IsWrite = record {
  correct = λ call count n h some_left.
      subst (λ m. (0 < m) × (m ≤ count)) (ap count_of h) (omega arith, omega arith);
  patient = λ call count h. absurd (ground arith);
  healthy = λ call count message h. ground arith;
}

append_complete_example :
    append 3 false one_more (1 ∷ []) (7 ∷ 8 ∷ []) ≡ some (1 ∷ 7 ∷ 8 ∷ [], ok 2)
append_complete_example =
    append_complete 0 one_more one_more-IsWrite 3 (1 ∷ []) (7 ∷ 8 ∷ []) (omega arith)
