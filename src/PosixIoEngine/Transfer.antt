-- ===== src/PosixIoEngine/Transfer.antt =====
-- Short transfers and interrupted calls do not show.
use enigma.Prelude.{
  ℕ, zero, suc, ◌+◌, ◌-◌, ◌≤◌, ◌<◌, true, false, Option, some, List, [], ◌∷◌, ◌++◌, length, take,
  drop, ◌≡◌, ◌≢◌, refl, ap, sym, ◌∙◌, arith, ltb, Bool-cases, inl, inr, append_assoc, append-nil,
  drop-add, length-append, String,
}
use enigma.Error.{Result, ok}
use enigma.PosixIoEngine.{
  Preading, Pread, after_pread, read_loop, read, Writing, WriteCall, after_write, append_loop,
  append,
}

-- `pread` on the file, with at most `k` interrupted calls before calls succeed for good: it reads what
-- stands at the offset, no more than was asked for, and nothing only where nothing is left.
pub record IsPread (file : List ℕ) (k : ℕ) (pread : Pread) : Type 0 where
  pub correct :
      (call count offset : ℕ) (bs : List ℕ)
      → pread call count offset ≡ Preading.bytes_read bs
      → (bs ≡ take (length bs) (drop offset file))
        × (length bs ≤ count)
        × (0 < count → length bs ≡ 0 → length file ≤ offset)
  pub patient : (call count offset : ℕ) → pread call count offset ≡ Preading.interrupted → call < k
  pub healthy :
      (call count offset : ℕ) (message : String) → pread call count offset ≢ Preading.failed message

take_nil : (n : ℕ) → ◌≡◌ {A = List ℕ} (take n []) []
take_nil zero = refl
take_nil (suc n) = refl

take_add : (a b : ℕ) (l : List ℕ) → take (a + b) l ≡ take a l ++ take b (drop a l)
take_add zero b l = ground arith
take_add (suc a) b [] = let e : suc a + b ≡ suc (a + b) = omega arith in rw e (sym (take_nil b))
take_add (suc a) b (x ∷ l) =
    let e : suc a + b ≡ suc (a + b) = omega arith in rw e (ap (λ m. x ∷ m) (take_add a b l))

length-drop : (n : ℕ) (l : List ℕ) → length (drop n l) ≤ length l - n
length-drop zero l = omega arith
length-drop (suc n) [] = omega arith
length-drop (suc n) (x ∷ l) = omega (arith, length-drop n l)

take_past : (a b : ℕ) (l : List ℕ) → length l ≤ a → length l ≤ b → take a l ≡ take b l
take_past a b [] h k = take_nil a ∙ sym (take_nil b)
take_past zero b (x ∷ l) h k = absurd (omega arith)
take_past (suc a) zero (x ∷ l) h k = absurd (omega arith)
take_past (suc a) (suc b) (x ∷ l) h k =
    ap (λ m. x ∷ m) (take_past a b l (omega arith) (omega arith))

read_loop_done :
    (fuel call count offset : ℕ) (pread : Pread) (got : List ℕ)
    → ltb (length got) count ≡ false
    → read_loop (suc fuel) pread call count offset got ≡ some (ok got)
read_loop_done fuel call count offset pread got h = unfold read_loop in rw h

read_loop_step :
    (fuel call count offset : ℕ) (pread : Pread) (got : List ℕ)
    → ltb (length got) count ≡ true
    → read_loop (suc fuel) pread call count offset got
      ≡ after_pread
          (pread call (count - length got) (offset + length got))
          got
          (read_loop fuel pread (call + 1) count offset got)
          (read_loop fuel pread (call + 1) count offset)
read_loop_step fuel call count offset pread got h = unfold read_loop in rw h

module _ (file : List ℕ) (k : ℕ) (pread : Pread) (p : IsPread file k pread) where
  abbrev wanted : ℕ → ℕ → Option (Result (List ℕ))
  wanted count offset = some (ok (take count (drop offset file)))

  -- More bytes from where the last ones ended.
  take-more :
      (offset : ℕ) (got bs : List ℕ)
      → got ≡ take (length got) (drop offset file)
      → bs ≡ take (length bs) (drop (offset + length got) file)
      → got ++ bs ≡ take (length (got ++ bs)) (drop offset file)
  take-more offset got bs h e =
      let d = drop offset file in
      ap (λ l. l ++ bs) h
      ∙ ap (λ l. take (length got) d ++ l)
          (e ∙ ap (take (length bs)) (drop-add offset (length got) file))
      ∙ sym (take_add (length got) (length bs) d)
      ∙ ap (λ n. take n d) (sym (length-append got bs))

  after_pread_complete :
      (call count offset : ℕ) (got : List ℕ) (again : Option (Result (List ℕ)))
      (more : List ℕ → Option (Result (List ℕ))) (r : Preading)
      → pread call (count - length got) (offset + length got) ≡ r
      → length got < count
      → got ≡ take (length got) (drop offset file)
      → (call < k → again ≡ wanted count offset)
      → ((bs : List ℕ)
          → bs ≡ take (length bs) (drop offset file)
          → length got < length bs
          → length bs ≤ count
          → more bs ≡ wanted count offset)
      → after_pread r got again more ≡ wanted count offset
  after_pread_complete call count offset got again more Preading.interrupted e lt h retry go =
      retry (p.patient call (count - length got) (offset + length got) e)
  after_pread_complete call count offset got again more (Preading.failed message) e lt h retry go =
      absurd (p.healthy call (count - length got) (offset + length got) message e)
  after_pread_complete call count offset got again more (Preading.bytes_read []) e lt h retry go =
      let (same, few, past) = p.correct call (count - length got) (offset + length got) [] e in
      let ended = past (omega arith) refl in
      ap (λ l. some (ok l))
        (h
          ∙ take_past (length got) count (drop offset file)
              (omega (arith, length-drop offset file, ended))
              (omega (arith, length-drop offset file, ended)))
  after_pread_complete call count offset got again more (Preading.bytes_read (b ∷ bs)) e lt h retry
        go =
      let (same, few, past) =
        p.correct call (count - length got) (offset + length got) (b ∷ bs) e in
      let size = length-append got (b ∷ bs) in
      go (got ++ (b ∷ bs)) (take-more offset got (b ∷ bs) h same) (omega (arith, size))
        (omega (arith, size, few))

  read_loop_complete :
      (fuel call count offset : ℕ) (got : List ℕ)
      → got ≡ take (length got) (drop offset file)
      → length got ≤ count
      → (k - call) + (count - length got) < fuel
      → read_loop fuel pread call count offset got ≡ wanted count offset
  read_loop_complete zero call count offset got h le few = absurd (omega arith)
  read_loop_complete (suc fuel) call count offset got h le few =
      elim (Bool-cases (ltb (length got) count)) [
        | inr full ↦
            let e : length got ≡ count = ground arith in
            read_loop_done fuel call count offset pread got full
            ∙ ap (λ l. some (ok l)) (h ∙ ap (λ n. take n (drop offset file)) e)
        | inl short ↦
            let lt : length got < count = ground arith in
            read_loop_step fuel call count offset pread got short
            ∙ after_pread_complete call count offset got _ _
                (pread call (count - length got) (offset + length got)) refl lt h
                (λ early. read_loop_complete fuel (call + 1) count offset got h le (omega arith))
                (λ bs same longer fits.
                  read_loop_complete fuel (call + 1) count offset bs same fits (omega arith))
      ]

  -- Where `pread` does not fail and is interrupted only in the first `k` calls, `read` returns exactly
  -- the bytes of the file from the offset on, as many as there are of those asked for, however short
  -- the transfers are. A fuel above `k` and the count together is enough.
  pub read_complete :
      (fuel count offset : ℕ)
      → k + count < fuel
      → read fuel false pread count offset ≡ some (ok (take count (drop offset file)))
  unfolding read
  read_complete fuel count offset few =
      read_loop_complete fuel 0 count offset [] refl (omega arith) (omega arith)

-- `write`, with at most `k` interrupted calls before calls succeed for good: it writes at least one
-- byte of those that it is given, and no more.
pub record IsWrite (k : ℕ) (write : WriteCall) : Type 0 where
  pub correct :
      (call count n : ℕ)
      → write call count ≡ Writing.bytes_written n
      → 0 < count
      → (0 < n) × (n ≤ count)
  pub patient : (call count : ℕ) → write call count ≡ Writing.interrupted → call < k
  pub healthy : (call count : ℕ) (message : String) → write call count ≢ Writing.failed message

take-append_drop : (n : ℕ) (l : List ℕ) → take n l ++ drop n l ≡ l
take-append_drop zero l = ground arith
take-append_drop (suc n) [] = refl
take-append_drop (suc n) (x ∷ l) = ap (λ m. x ∷ m) (take-append_drop n l)

length-drop_exact : (n : ℕ) (l : List ℕ) → n ≤ length l → length (drop n l) + n ≡ length l
length-drop_exact zero l h = omega arith
length-drop_exact (suc n) [] h = absurd (omega arith)
length-drop_exact (suc n) (x ∷ l) h = omega (arith, length-drop_exact n l (omega arith))

module _ (k : ℕ) (write : WriteCall) (w : IsWrite k write) where
  abbrev appended : List ℕ → ℕ → List ℕ → Option (List ℕ × Result ℕ)
  appended file written left = some (file ++ left, ok (written + length left))

  appended-step :
      (file : List ℕ) (written n : ℕ) (left : List ℕ)
      → n ≤ length left
      → appended (file ++ take n left) (written + n) (drop n left) ≡ appended file written left
  appended-step file written n left h =
      let size : written + n + length (drop n left) ≡ written + length left =
        omega (arith, length-drop_exact n left h) in
      ap (λ m. some ((file ++ take n left) ++ drop n left, ok m)) size
      ∙ ap (λ l. some (l, ok (written + length left)))
          (append_assoc file (take n left) (drop n left)
            ∙ ap (λ l. file ++ l) (take-append_drop n left))

  after_write_complete :
      (call : ℕ) (file : List ℕ) (written : ℕ) (left : List ℕ) (again : Option (List ℕ × Result ℕ))
      (more : ℕ → Option (List ℕ × Result ℕ)) (r : Writing)
      → write call (length left) ≡ r
      → 0 < length left
      → (call < k → again ≡ appended file written left)
      → ((n : ℕ)
          → 0 < n
          → n ≤ length left
          → more n ≡ appended (file ++ take n left) (written + n) (drop n left))
      → after_write r file again more ≡ appended file written left
  after_write_complete call file written left again more Writing.interrupted e some_left retry go =
      retry (w.patient call (length left) e)
  after_write_complete call file written left again more (Writing.failed message) e some_left retry
        go =
      absurd (w.healthy call (length left) message e)
  after_write_complete call file written left again more (Writing.bytes_written n) e some_left retry
        go =
      let (progress, fits) = w.correct call (length left) n e some_left in
      go n progress fits ∙ appended-step file written n left fits

  append_loop_complete :
      (fuel call : ℕ) (file : List ℕ) (written : ℕ) (left : List ℕ)
      → (k - call) + length left < fuel
      → append_loop fuel write call file written left ≡ appended file written left
  unfolding append_loop
  append_loop_complete zero call file written left few = absurd (omega arith)
  append_loop_complete (suc fuel) call file written [] few =
      let e : written + 0 ≡ written = omega arith in
      ap (λ l. some (l, ok written)) (sym (append-nil file))
      ∙ ap (λ m. some (file ++ [], ok m)) (sym e)
  append_loop_complete (suc fuel) call file written (b ∷ bs) few =
      let left = b ∷ bs in
      after_write_complete call file written left _ _ (write call (length left)) refl (omega arith)
        (λ early. append_loop_complete fuel (call + 1) file written left (omega arith))
        (λ n progress fits.
          append_loop_complete fuel (call + 1) (file ++ take n left) (written + n) (drop n left)
            (omega (arith, length-drop_exact n left fits)))

  -- Where `write` does not fail and is interrupted only in the first `k` calls, `append` puts all the
  -- bytes at the end of the file and returns their number, however few each call writes. A fuel
  -- above `k` and the number of bytes together is enough.
  pub append_complete :
      (fuel : ℕ) (file buffer : List ℕ)
      → k + length buffer < fuel
      → append fuel false write file buffer ≡ some (file ++ buffer, ok (length buffer))
  append_complete fuel file buffer few =
      unfold append in
      append_loop_complete fuel 0 file 0 buffer (omega arith)
      ∙ (let e : 0 + length buffer ≡ length buffer = omega arith in
          ap (λ m. some (file ++ buffer, ok m)) e)
