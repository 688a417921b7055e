-- ===== src/Memtable/Tests.antt =====
-- Runs of the memtable, and its theorems at concrete inputs.
use enigma.Prelude.{List, [], ◌∷◌, ◌≡◌, refl, arith, leb}
use enigma.Prelude.Ord.{compare_bytes}
use enigma.Storage.{Key, key_ord}
use enigma.SortedMap.{find, insert}
use enigma.Memtable.{Memtable, empty, put, remove, get, approximate_size, should_flush}
use enigma.Memtable.Contents.{live}
use enigma.Memtable.Size.{total_bytes}
use enigma.Memtable.History.{
  Write, put_row, delete_row, apply, run, latest, get-run, should_flush-run,
}

abbrev first_key : Key
first_key = 1 ∷ []

abbrev second_key : Key
second_key = 2 ∷ []

abbrev one_entry : Memtable
one_entry = record {
  bytes = 3;
  max_memtable_size = 8;
  entries = (1 ∷ [], live (5 ∷ 6 ∷ []) 1) ∷ [];
}

abbrev writes : List Write
writes = put_row (1 ∷ []) (5 ∷ 6 ∷ []) 1 ∷ put_row (2 ∷ []) (7 ∷ []) 2 ∷ delete_row (1 ∷ []) 3 ∷ []

bytes_after : approximate_size (run (empty 8) writes) ≡ 3
unfolding approximate_size run apply put remove find insert compare_bytes
bytes_after = refl

get-run_example :
    get (run (empty 8) writes) first_key ≡ latest first_key (get (empty 8) first_key) writes
get-run_example = get-run (empty 8) writes first_key

few_bytes : total_bytes (run (empty 8) writes).entries ≡ 3
unfolding total_bytes run apply put remove find insert compare_bytes
few_bytes = refl

should_flush-run_example :
    should_flush (run (empty 8) writes) ≡ leb 8 (total_bytes (run (empty 8) writes).entries)
should_flush-run_example = should_flush-run 8 writes (rw few_bytes (omega arith))
