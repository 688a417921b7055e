-- ===== src/Memtable.antt =====
-- src/storage/dazzle_db/memtable/memtable.cpp: the sorted write buffer, with its count of bytes in
-- a 64-bit `size_t`.
pub mod Contents
pub mod Size
pub mod History
mod Tests
use enigma.Prelude.{
  ℕ, ◌+◌, ◌-◌, ◌%◌, ◌^◌, Bool, true, false, Option, none, some, List, [], length, leb,
}
use enigma.Storage.{Key, InternalValue, key_ord}
use enigma.SortedMap.{SortedMap, find, insert}

pub record Memtable : Type 0 where
  pub bytes : ℕ
  pub max_memtable_size : ℕ
  pub entries : SortedMap Key InternalValue

abbrev pub empty : ℕ → Memtable
empty flush_after = record { bytes = 0; max_memtable_size = flush_after; entries = [] }

-- `size_t` addition and subtraction.
abbrev pub add64 : ℕ → ℕ → ℕ
add64 a b = (a + b) % 2 ^ 64

abbrev pub sub64 : ℕ → ℕ → ℕ
sub64 a b = (a + (2 ^ 64 - b % 2 ^ 64)) % 2 ^ 64

-- `entries_[key] = value; bytes_ += to_add; bytes_ -= to_remove;` where the new value takes
-- `value_size` bytes, and `to_remove` and the key's bytes in `to_add` depend on what was there.
abbrev store : Memtable → Key → InternalValue → ℕ → Memtable
store m key value value_size = elim (find key m.entries) [
  | none ↦ record m {
    bytes = sub64 (add64 m.bytes (value_size + length key)) 0;
    entries = insert key value m.entries;
  }
  | some old ↦ record m {
    bytes = sub64 (add64 m.bytes value_size) (length old.bytes);
    entries = insert key value m.entries;
  }
]

unfoldable pub put : Memtable → Key → List ℕ → ℕ → Memtable
put m key value sequence =
    store m key (record { bytes = value; is_tombstone = false; sequence = sequence }) (length value)

unfoldable pub remove : Memtable → Key → ℕ → Memtable
remove m key sequence =
    store m key (record { bytes = []; is_tombstone = true; sequence = sequence }) 0

unfoldable pub get : Memtable → Key → Option InternalValue
get m key = find key m.entries

unfoldable pub approximate_size : Memtable → ℕ
approximate_size m = m.bytes

unfoldable pub should_flush : Memtable → Bool
should_flush m = leb m.max_memtable_size m.bytes

unfoldable pub count : Memtable → ℕ
count m = length m.entries
