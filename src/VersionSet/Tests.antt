-- ===== src/VersionSet/Tests.antt =====
-- Runs of the version set, and its theorems at concrete inputs.
use enigma.Prelude.{none, [], ◌∷◌, ◌≡◌, refl, All, if◌then◌else◌}
use enigma.Prelude.Ord.{nat_ord}
use enigma.Error.{ok, err, error, stale_version}
use enigma.SortedMap.{find, insert, erase, IsSorted}
use enigma.VersionSet.{
  SstableId, SstableMeta, Version, VersionEdit, VersionSet, new_version_set, apply, pointers,
  use_count, remove_unused, insert_ids, insert_versions, reclaim, purge_obsolete_files, add_pending,
  append_version, all_present, erase_all, add_all,
}
use enigma.VersionSet.Files.{last_added, is_removed, find-apply, apply-consumed}
use enigma.VersionSet.Reclaim.{release, Step.get_current, Step.leave, Reach.start, Reach.later}
use enigma.VersionSet.Safety.{IsUnused, apply-IsUnused}

abbrev table : SstableId → SstableMeta
table id = record { id = id; size_bytes = 10; entry_count = 2; max_sequence = 7 }

abbrev first_version : Version
first_version = record { address = 100; files = (1, table 1) ∷ (2, table 2) ∷ [] }

-- Tables 1 and 2 are merged into table 3.
abbrev merge : VersionEdit
merge = record { removed = 1 ∷ 2 ∷ []; added = table 3 ∷ []; next_sst_id = none }

abbrev second_version : Version
second_version = record { address = 101; files = (3, table 3) ∷ [] }

abbrev with_reader : VersionSet
with_reader = record {
  current_version = second_version;
  live_versions = first_version ∷ second_version ∷ [];
  pending_obsolete_ids = (1, tt) ∷ (2, tt) ∷ [];
}

abbrev without_reader : VersionSet
without_reader = record {
  current_version = second_version;
  live_versions = second_version ∷ [];
  pending_obsolete_ids = [];
}

waits_for_reader :
    apply (first_version ∷ []) 101 merge (new_version_set first_version) ≡ ok ([], with_reader)
unfolding apply append_version purge_obsolete_files remove_unused use_count pointers insert_ids
    insert_versions reclaim add_pending all_present erase_all add_all find insert erase
waits_for_reader = refl

reclaims_at_once :
    apply [] 101 merge (new_version_set first_version) ≡ ok (1 ∷ 2 ∷ [], without_reader)
unfolding apply append_version purge_obsolete_files remove_unused use_count pointers insert_ids
    insert_versions reclaim add_pending all_present erase_all add_all find insert erase
reclaims_at_once = refl

apply-IsUnused_example : All (IsUnused (record { set = without_reader; readers = [] })) (1 ∷ 2 ∷ [])
unfolding release
apply-IsUnused_example =
    apply-IsUnused first_version (record { set = new_version_set first_version; readers = [] }) 101
      merge (1 ∷ 2 ∷ []) without_reader (later (later start get_current) (leave 0)) reclaims_at_once

find-apply_example :
    IsSorted second_version.files
    × (find 1 second_version.files
        ≡ last_added 1 merge.added
            (if is_removed 1 merge.removed then none else find 1 first_version.files))
find-apply_example =
    find-apply [] 101 merge (new_version_set first_version) (1 ∷ 2 ∷ []) without_reader 1
      ((refl, tt), (tt, tt)) reclaims_at_once

apply-consumed_example :
    apply [] 102 merge without_reader ≡ err (error stale_version "VersionEdit already consumed")
unfolding is_removed last_added
apply-consumed_example =
    apply-consumed [] [] 101 102 merge merge (new_version_set first_version) (1 ∷ 2 ∷ [])
      without_reader 1 ((refl, tt), (tt, tt)) reclaims_at_once refl refl refl
