-- ===== src/Compaction/Tests.antt =====
-- Runs of a compaction, and the theorems at concrete inputs.
use enigma.Prelude.{
  ℕ, zero, suc, true, false, none, some, List, [], ◌∷◌, ◌++◌, length, ◌≡◌, refl, arith, ◌⊎◌, ◌<◌,
}
use enigma.Prelude.Ord.{compare_bytes}
use enigma.Error.{Error, ok, error, bad_file}
use enigma.MergeIterator.{
  Entry, Source, new_iterator, seek_to_first, push_sources, advance_to_winner, next, pop,
  heap_compare, position, heap_size, deduplicate, advance_and_repush,
}
use enigma.MergeIterator.Merge.{IsMergeOf, entry_count}
use enigma.VersionSet.{SstableId}
use enigma.Compaction.{Tables, open_readers, copy, conclude, compact}
use enigma.Compaction.Merge.{kept, add_entries, compact-IsMergeOf, compact-drops_inputs}
use enigma.Compaction.TombstoneGc.{
  Listed, can_drop_tombstones, sort_ids, insert_sorted, same_prefix, can_drop_tombstones_oldest,
}

abbrev entry : ℕ → ℕ → Entry
entry key sequence = (key ∷ [], record { bytes = []; is_tombstone = false; sequence = sequence })

abbrev deleted : ℕ → ℕ → Entry
deleted key sequence = (key ∷ [], record { bytes = []; is_tombstone = true; sequence = sequence })

abbrev broken : Error
broken = error bad_file "checksum mismatch"

-- Table 1 has two entries, table 2 two more, and the first block of any other table is broken.
abbrev table : SstableId → Source
table (suc zero) = record { entries = entry 1 4 ∷ entry 3 5 ∷ []; failure = none }
table (suc (suc zero)) = record { entries = deleted 1 6 ∷ entry 2 7 ∷ []; failure = none }
table _ = record { entries = []; failure = some broken }

-- A writer is what was added to it.
abbrev tables : Tables Source (List Entry)
tables = record {
  get = λ id. ok (table id);
  entry_count = λ s. ok (length s.entries);
  source = λ s. s;
  create = λ n. ok [];
  add = λ w k v. ok (w ++ ((k, v) ∷ []));
  finish = λ w. ok tt;
}

drops_the_tombstone :
    copy tables 5 (seek_to_first (new_iterator (table 1 ∷ table 2 ∷ []))) true []
    ≡ some (ok (entry 2 7 ∷ entry 3 5 ∷ []))
unfolding copy seek_to_first push_sources advance_to_winner next pop heap_compare position heap_size
    deduplicate advance_and_repush compare_bytes
drops_the_tombstone = refl

compact-IsMergeOf_example :
    (out : List Entry) × IsMergeOf (table 1 ∷ table 2 ∷ []) out
    × (compact tables (suc (entry_count (table 1 ∷ table 2 ∷ []))) (1 ∷ 2 ∷ []) 9 true
        ≡ conclude tables 9 (some (add_entries tables [] (kept true out))))
unfolding open_readers compare_bytes
compact-IsMergeOf_example =
    compact-IsMergeOf tables (1 ∷ 2 ∷ []) 9 true (table 1 ∷ table 2 ∷ []) 4 [] refl refl (
      record { sorted = ((refl, tt), (tt, tt)); no_failure = refl },
      (record { sorted = ((refl, tt), (tt, tt)); no_failure = refl }, tt),
    )

compact-drops_inputs_example :
    compact tables 1 (7 ∷ 1 ∷ []) 9 true ≡ conclude tables 9 (some (ok []))
unfolding open_readers
compact-drops_inputs_example =
    compact-drops_inputs tables 0 (7 ∷ 1 ∷ []) 9 true (table 7) (table 1 ∷ []) 2 [] broken refl refl
      refl refl

gap_keeps_tombstones : can_drop_tombstones (1 ∷ 2 ∷ 3 ∷ []) (3 ∷ 1 ∷ []) ≡ false
unfolding can_drop_tombstones sort_ids insert_sorted same_prefix
gap_keeps_tombstones = refl

can_drop_tombstones_oldest_example :
    ((i : SstableId) → Listed i (2 ∷ 1 ∷ []) → Listed i (1 ∷ 2 ∷ 3 ∷ []))
    × ((j : SstableId)
        → Listed j (1 ∷ 2 ∷ 3 ∷ [])
        → Listed j (2 ∷ 1 ∷ []) ⊎ ((i : SstableId) → Listed i (2 ∷ 1 ∷ []) → i < j))
unfolding can_drop_tombstones sort_ids insert_sorted same_prefix
can_drop_tombstones_oldest_example =
    can_drop_tombstones_oldest (1 ∷ 2 ∷ 3 ∷ []) (2 ∷ 1 ∷ [])
      ((omega arith, (omega arith, tt)), ((omega arith, tt), (tt, tt))) refl
