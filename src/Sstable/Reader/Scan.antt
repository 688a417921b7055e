-- ===== src/Sstable/Reader/Scan.antt =====
-- The scan of a block finds what the block's entries have under the key.
use enigma.Prelude.{
  ℕ, zero, suc, ◌+◌, ◌≤◌, ◌<◌, ◌≡◌, refl, sym, ◌∙◌, ap, subst, arith, true, false, Option, none,
  some, [], ◌∷◌, length, leb, ltb, length-append, append-nil, Ordering, All, ◌⊎◌, inl, inr,
}
use enigma.Error.{Result, ok}
use enigma.Prelude.Ord.{compare_bytes}
use enigma.Storage.{Key, InternalValue, key_ord}
use enigma.SortedMap.{SortedMap, find, Above, IsSorted}
use enigma.SortedMap.Laws.{find-none_of_Above, Above-trans}
use enigma.Encoding.{Buffer}
use enigma.Encoding.Segment.{At, At-first, At-second, At-end, At-whole}
use enigma.Sstable.Block.{get_messages, read_tail}
use enigma.Sstable.Block.Entries.{
  IsStorable, entry_bytes, entries_bytes, length-entry_bytes, At-value, read_head-entry,
  read_tail-entry,
}
use enigma.Sstable.Reader.{scan_block, compared}

scan_block-end :
    (fuel : ℕ) (key : Key) (block : Buffer) (offset : ℕ)
    → length block ≤ offset
    → scan_block (suc fuel) key block (length block) offset ≡ some (ok none)
scan_block-end fuel key block offset h =
    let e : ltb offset (length block) ≡ false = ground arith in unfold scan_block in rw e

-- One round, at an entry.
scan_block-entry :
    (fuel : ℕ) (key k : Key) (v : InternalValue) (block : Buffer) (offset : ℕ)
    → IsStorable k v
    → At block offset (entry_bytes k v)
    → scan_block (suc fuel) key block (length block) offset
      ≡ compared
          (compare_bytes key k)
          block
          (length block)
          (offset + 4 + length k + 4)
          (length v.bytes)
          (scan_block fuel key block (length block))
scan_block-entry fuel key k v block offset s a =
    let e : ltb offset (length block) ≡ true =
      ground (arith, At-end block offset (entry_bytes k v) a, length-entry_bytes k v) in
    unfold scan_block in rw (e, read_head-entry get_messages block offset k v s a)

compared-eq :
    (block : Buffer) (size offset value_len : ℕ) (more : ℕ → Option (Result (Option InternalValue)))
    {c : Ordering} {v : InternalValue}
    → c ≡ Ordering.eq
    → read_tail block size offset value_len ≡ ok v
    → compared c block size offset value_len more ≡ some (ok (some v))
compared-eq block size offset value_len more e f = rw (e, f)

compared-gt :
    (block : Buffer) (size offset value_len : ℕ) (more : ℕ → Option (Result (Option InternalValue)))
    {c : Ordering}
    → c ≡ Ordering.gt
    → leb (offset + value_len + 9) size ≡ true
    → compared c block size offset value_len more ≡ more (offset + value_len + 9)
compared-gt block size offset value_len more e f = rw (e, f)

find-same :
    (key k : Key) (v : InternalValue) (m : SortedMap Key InternalValue)
    → compare_bytes key k ≡ Ordering.eq
    → find key ((k, v) ∷ m) ≡ some v
unfolding find
find-same key k v m e = ground (arith, key_ord.eq_of_cmp key k, key_ord.cmp_refl k)

find-below :
    (key k : Key) (v : InternalValue) (m : SortedMap Key InternalValue)
    → Above k m
    → compare_bytes key k ≡ Ordering.lt
    → find key ((k, v) ∷ m) ≡ none
unfolding find
find-below key k v m a e =
    ground (arith, find-none_of_Above key m (Above-trans key k m e a), key_ord.gt_of_lt key k)

find-above :
    (key k : Key) (v : InternalValue) (m : SortedMap Key InternalValue)
    → compare_bytes key k ≡ Ordering.gt
    → find key ((k, v) ∷ m) ≡ find key m
unfolding find
find-above key k v m e = ground (arith, key_ord.lt_of_gt key k)

Ordering-cases : (c : Ordering) → (c ≡ Ordering.lt) ⊎ (c ≡ Ordering.eq) ⊎ (c ≡ Ordering.gt)
Ordering-cases Ordering.lt = inl refl
Ordering-cases Ordering.eq = inr (inl refl)
Ordering-cases Ordering.gt = inr (inr refl)

scan_block-from :
    (fuel : ℕ) (key : Key) (m : SortedMap Key InternalValue) (block : Buffer) (offset : ℕ)
    → At block offset (entries_bytes m)
    → length block ≡ offset + length (entries_bytes m)
    → IsSorted m
    → All (λ (e : Key × InternalValue). IsStorable e.0 e.1) m
    → length m < fuel
    → scan_block fuel key block (length block) offset ≡ some (ok (find key m))
unfolding entries_bytes
scan_block-from zero key m block offset a n s fit less = absurd (omega arith)
scan_block-from (suc fuel) key [] block offset a n s fit less =
    scan_block-end fuel key block offset (omega (arith, n)) ∙ unfold find in refl
scan_block-from (suc fuel) key ((k, v) ∷ m) block offset a n s fit less =
    let mine = At-first block offset (entry_bytes k v) (entries_bytes m) a in
    let values = At-value block offset k v mine in
    let size : offset + 4 + length k + 4 + length v.bytes + 9 ≡ offset + length (entry_bytes k v) =
      omega (arith, length-entry_bytes k v) in
    let rest : At block (offset + 4 + length k + 4 + length v.bytes + 9) (entries_bytes m) =
      subst (λ o. At block o (entries_bytes m)) (sym size)
        (At-second block offset (entry_bytes k v) (entries_bytes m) a) in
    let total = length-append (entry_bytes k v) (entries_bytes m) in
    let left : length block
        ≡ offset + 4 + length k + 4 + length v.bytes + 9 + length (entries_bytes m) =
      omega (arith, n, total, size) in
    let later =
      scan_block-from fuel key m block (offset + 4 + length k + 4 + length v.bytes + 9) rest left
        s.1 fit.1 (omega (arith, less)) in
    scan_block-entry fuel key k v block offset fit.0 mine
    ∙ (elim (Ordering-cases (compare_bytes key k)) [
      | inl below ↦ rw below (ap (λ o. some (ok o)) (sym (find-below key k v m s.0 below)))
      | inr (inl equal) ↦
          compared-eq block (length block) _ (length v.bytes) _ equal
            (read_tail-entry block (offset + 4 + length k + 4) k v fit.0 values)
          ∙ ap (λ o. some (ok o)) (sym (find-same key k v m equal))
      | inr (inr above) ↦
          compared-gt block (length block) _ (length v.bytes) _ above (ground (arith, left))
          ∙ later
          ∙ ap (λ o. some (ok o)) (sym (find-above key k v m above))
    ])

-- The scan of a block that holds sorted entries, whose lengths and sequence numbers fit their fields, with
-- a fuel above their number, returns the entry of the key if there is one, and nothing otherwise.
pub scan_block-find :
    (fuel : ℕ) (key : Key) (m : SortedMap Key InternalValue)
    → IsSorted m
    → All (λ (e : Key × InternalValue). IsStorable e.0 e.1) m
    → length m < fuel
    → scan_block fuel key (entries_bytes m) (length (entries_bytes m)) 0 ≡ some (ok (find key m))
scan_block-find fuel key m s fit less =
    scan_block-from fuel key m (entries_bytes m) 0
      (subst (λ b. At b 0 (entries_bytes m)) (append-nil (entries_bytes m))
        (At-whole [] (entries_bytes m) []))
      (omega arith) s fit less
