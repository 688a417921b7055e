-- ===== src/Memtable/Size.antt =====
-- The byte counter, against the bytes that the entries really take.
use enigma.Prelude.{ℕ, ◌+◌, ◌%◌, ◌^◌, Option, none, some, List, [], ◌∷◌, ◌≡◌, refl, arith, length}
use enigma.Storage.{Key, InternalValue, key_ord}
use enigma.SortedMap.{SortedMap, find, insert, IsSorted}
use enigma.SortedMap.Laws.{find-none_of_Above, Above-trans}
use enigma.Memtable.Contents.{live, tombstone, put-remove-IsSorted}
use enigma.Memtable.{Memtable, empty, put, remove}

-- The key bytes and value bytes of all entries.
unfoldable pub total_bytes : SortedMap Key InternalValue → ℕ
total_bytes [] = 0
total_bytes ((k, v) ∷ m) = length k + length v.bytes + total_bytes m

-- What an entry under the key takes now.
abbrev taken : Key → Option InternalValue → ℕ
taken key none = 0
taken key (some old) = length key + length old.bytes

pub total_bytes-insert :
    (key : Key) (value : InternalValue) (m : SortedMap Key InternalValue)
    → IsSorted m
    → total_bytes (insert key value m) + taken key (find key m)
      ≡ total_bytes m + length key + length value.bytes
unfolding total_bytes insert find
total_bytes-insert key value [] s = omega arith
total_bytes-insert key value ((j, w) ∷ m) s = ground (
  arith,
  total_bytes-insert key value m,
  key_ord.eq_of_cmp key j,
  key_ord.eq_of_cmp j key,
  key_ord.lt_of_gt key j,
  key_ord.gt_of_lt key j,
  key_ord.lt_of_gt j key,
  find-none_of_Above key m,
  Above-trans key j m,
  key_ord.cmp_refl key,
)

-- The counter is the true size, in the 64 bits of a `size_t`.
pub record IsCounted (m : Memtable) : Type 0 where
  pub sorted : IsSorted m.entries
  pub counted : m.bytes ≡ total_bytes m.entries % 2 ^ 64

pub empty-IsCounted : (flush_after : ℕ) → IsCounted (empty flush_after)
unfolding total_bytes
empty-IsCounted flush_after = record { sorted = tt; counted = refl }

pub put-IsCounted :
    (m : Memtable) (key : Key) (value : List ℕ) (sequence : ℕ)
    → IsCounted m
    → IsCounted (put m key value sequence)
put-IsCounted m key value sequence c = record {
  sorted = (put-remove-IsSorted m key value sequence c.sorted).0;
  counted =
      unfold put in
      ground (arith, c.counted, total_bytes-insert key (live value sequence) m.entries c.sorted);
}

pub remove-IsCounted :
    (m : Memtable) (key : Key) (sequence : ℕ) → IsCounted m → IsCounted (remove m key sequence)
remove-IsCounted m key sequence c = record {
  sorted = (put-remove-IsSorted m key [] sequence c.sorted).1;
  counted =
      unfold remove in
      ground (arith, c.counted, total_bytes-insert key (tombstone sequence) m.entries c.sorted);
}
