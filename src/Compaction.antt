-- ===== src/Compaction.antt =====
-- src/storage/dazzle_db/compaction/compaction.cpp: several tables are merged into a new one. The
-- tables are reached through the operations of `Tables`.
pub mod Merge
pub mod TombstoneGc
pub mod Policy
mod Tests
use enigma.Prelude.{
  ℕ, zero, suc, ◌+◌, ◌%◌, ◌^◌, Bool, true, false, Option, none, some, List, [], ◌∷◌, ◌&&◌, map,
  if◌then◌else◌,
}
use enigma.Error.{Result, ok, err, fault, error, unexpected_err, ◌>>=◌, ◌>>◌}
use enigma.Storage.{Key, InternalValue}
use enigma.VersionSet.{SstableId}
use enigma.MergeIterator.{Entry, Source, MergeIterator, new_iterator, seek_to_first, next}

-- What a compaction uses of the table cache, of a reader `R` and its iterator, and of a writer `W`.
pub record Tables (R W : Type 0) : Type 0 where
  -- `TableCache::get`
  pub get : SstableId → Result R
  -- `entry_count` of `SSTableReader::get_footer`
  pub entry_count : R → Result ℕ
  -- what an `SSTableIterator` on the reader yields
  pub source : R → Source
  -- `SSTableWriter::create` with the estimated number of keys, `add` and `finish`
  pub create : ℕ → Result W
  pub add : W → Key → InternalValue → Result W
  pub finish : W → Result (Unit {0})

module _ {R W : Type 0} (t : Tables R W) where
  -- What becomes of a failed `cache.get`.
  abbrev or_missing : Result R → Result R
  or_missing (ok r) = ok r
  or_missing (err e) =
      err
        (error unexpected_err "SST file went missing from snapshot before compaction could read it")
  or_missing fault = fault

  -- The loop over the inputs: the readers, and `possible_keys`.
  unfoldable pub open_readers : List SstableId → ℕ → Result (List R × ℕ)
  open_readers [] possible_keys = ok ([], possible_keys)
  open_readers (i ∷ inputs) possible_keys = do
    reader ← or_missing (t.get i)
    count ← t.entry_count reader
    (readers, total) ← open_readers inputs ((possible_keys + count) % 2 ^ 64)
    ok (reader ∷ readers, total)

  -- What follows `writer.add`.
  abbrev pub after_add : Result W → (W → Option (Result W)) → Option (Result W)
  after_add (ok w) rest = rest w
  after_add (err e) rest = some (err e)
  after_add fault rest = some fault

  -- The loop over the merge; `none` means that the fuel ran out.
  unfoldable pub copy : ℕ → MergeIterator → Bool → W → Option (Result W)
  unfolding next
  copy zero m is_full_compaction writer = none
  copy (suc fuel) m is_full_compaction writer =
      let skipped = copy fuel (next m) is_full_compaction writer in
      let added =
        after_add (t.add writer m.current_key m.current_value)
          (λ w. copy fuel (next m) is_full_compaction w) in
      if m.valid
      then if m.current_value.is_tombstone && is_full_compaction then skipped else added
      else some (ok writer)

  -- `writer.finish()` and the new table's id, after the loop.
  abbrev pub conclude : SstableId → Option (Result W) → Option (Result SstableId)
  conclude next_sst_seq none = none
  conclude next_sst_seq (some r) = some (do writer ← r; t.finish writer; ok next_sst_seq)

  abbrev pub merge_into : ℕ → List R → Bool → SstableId → Result W → Option (Result SstableId)
  merge_into fuel readers is_full_compaction next_sst_seq (err e) = some (err e)
  merge_into fuel readers is_full_compaction next_sst_seq fault = some fault
  merge_into fuel readers is_full_compaction next_sst_seq (ok writer) =
      conclude next_sst_seq
        (copy fuel (seek_to_first (new_iterator (map t.source readers))) is_full_compaction writer)

  abbrev pub after_open : ℕ → Bool → SstableId → Result (List R × ℕ) → Option (Result SstableId)
  after_open fuel is_full_compaction next_sst_seq (err e) = some (err e)
  after_open fuel is_full_compaction next_sst_seq fault = some fault
  after_open fuel is_full_compaction next_sst_seq (ok (readers, possible_keys)) =
      merge_into fuel readers is_full_compaction next_sst_seq (t.create possible_keys)

  -- `Compactor::compact`
  unfoldable pub compact : ℕ → List SstableId → SstableId → Bool → Option (Result SstableId)
  unfolding open_readers copy
  compact fuel inputs next_sst_seq is_full_compaction =
      after_open fuel is_full_compaction next_sst_seq (open_readers inputs 0)
