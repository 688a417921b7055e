-- ===== src/Compaction/Policy/Tests.antt =====
-- Runs of the compaction policies, and the theorem at a concrete input.
use enigma.Prelude.{ℕ, ◌+◌, ◌*◌, ◌/◌, leb, false, some, List, [], ◌∷◌, ◌≡◌, refl}
use enigma.VersionSet.{SstableMeta}
use enigma.Compaction.TombstoneGc.{can_drop_tombstones, sort_ids, insert_sorted, same_prefix}
use enigma.Compaction.Policy.{
  CompactionCandidate, Doubles, SizeTiered, pick, fill_buckets, find_buckets, take_inputs, sort_by,
  insert_by,
}
use enigma.Compaction.Policy.Choice.{IsChoice, pick-IsChoice}

-- Hundredths, for numbers that hundredths can hold.
abbrev hundredths : Doubles ℕ
hundredths = record {
  of_uint = λ n. n * 100;
  plus = λ a b. a + b;
  times = λ a b. a * b / 100;
  over = λ a b. a * 100 / b;
  at_most = leb;
}

abbrev pairs : SizeTiered ℕ
pairs = record { min_merge_width = 2; max_merge_width = 3; bucket_low = 50; bucket_high = 150 }

abbrev file : ℕ → ℕ → SstableMeta
file id size = record { id = id; size_bytes = size; entry_count = 1; max_sequence = id }

abbrev live : List SstableMeta
live = file 1 100 ∷ file 2 9 ∷ file 3 110 ∷ file 4 10 ∷ []

abbrev picked : CompactionCandidate
picked = record { inputs = 1 ∷ 3 ∷ []; can_drop_tombstone = false }

picks_oldest_pair : pick hundredths pairs live ≡ some picked
unfolding pick fill_buckets find_buckets take_inputs sort_by insert_by can_drop_tombstones sort_ids
    insert_sorted same_prefix
picks_oldest_pair = refl

pick-IsChoice_example : IsChoice pairs live (1 ∷ 3 ∷ [])
pick-IsChoice_example = pick-IsChoice hundredths pairs live picked picks_oldest_pair
