-- ===== src/Memtable/Contents.antt =====
-- What a look-up finds after each operation, and that the entries stay sorted.
use enigma.Prelude.{ℕ, true, false, some, List, [], ◌≡◌, arith, if◌then◌else◌}
use enigma.Storage.{Key, InternalValue, key_ord}
use enigma.SortedMap.{same, insert, IsSorted}
use enigma.SortedMap.Laws.{find-insert, insert-IsSorted}
use enigma.Memtable.{Memtable, put, remove, get}

abbrev pub live : List ℕ → ℕ → InternalValue
live value sequence = record { bytes = value; is_tombstone = false; sequence = sequence }

abbrev pub tombstone : ℕ → InternalValue
tombstone sequence = record { bytes = []; is_tombstone = true; sequence = sequence }

pub entries-put :
    (m : Memtable) (key : Key) (value : List ℕ) (sequence : ℕ)
    → (put m key value sequence).entries ≡ insert key (live value sequence) m.entries
unfolding put
entries-put m key value sequence = ground arith

pub entries-remove :
    (m : Memtable) (key : Key) (sequence : ℕ)
    → (remove m key sequence).entries ≡ insert key (tombstone sequence) m.entries
unfolding remove
entries-remove m key sequence = ground arith

-- After `put` of a key, `get` finds the live value under that key and under every other key what
-- it found before; after `remove` it finds a tombstone with the given sequence number there.
pub get-put-remove :
    (m : Memtable) (key j : Key) (value : List ℕ) (sequence : ℕ)
    → (get (put m key value sequence) j
        ≡ (if same key j then some (live value sequence) else get m j))
      × (get (remove m key sequence) j
          ≡ (if same key j then some (tombstone sequence) else get m j))
unfolding get
get-put-remove m key j value sequence = (
  rw entries-put (find-insert key j (live value sequence) m.entries),
  rw entries-remove (find-insert key j (tombstone sequence) m.entries),
)

-- `put` and `remove` keep the entries sorted by key, with no key twice.
pub put-remove-IsSorted :
    (m : Memtable) (key : Key) (value : List ℕ) (sequence : ℕ)
    → IsSorted m.entries
    → IsSorted (put m key value sequence).entries × IsSorted (remove m key sequence).entries
put-remove-IsSorted m key value sequence s = (
  rw entries-put (insert-IsSorted key (live value sequence) m.entries s),
  rw entries-remove (insert-IsSorted key (tombstone sequence) m.entries s),
)
