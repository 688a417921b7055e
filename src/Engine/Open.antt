-- ===== src/Engine/Open.antt =====
-- `Dazzle::recover` and `Dazzle::open`, with `trim_string` of include/enigmadb/utils.h.
pub mod Numbered
mod Tests
use enigma.Prelude.{
  ℕ, ◌+◌, ◌^◌, ◌%◌, Bool, true, false, max, Option, none, some, List, [], ◌∷◌, map, ltb, ◌==◌, ◌||◌,
  if◌then◌else◌, length, String,
}
use mathlib.Core.List.{reverse}
use enigma.Error.{Result, ok, err, fault, error, bad_config, unexpected_err}
use enigma.Io.{Io, pure, returns, modify, ◌>>=◌, ◌>>◌}
use enigma.SortedMap.{SortedMap, find, insert}
use enigma.Memtable.{empty, approximate_size}
use enigma.Prelude.Ord.{nat_ord}
use enigma.VersionSet.{SstableId, SstableMeta, new_version_set}
use enigma.Compaction.Policy.{Doubles, SizeTiered, pick, sort_by}
use enigma.Wal.Reader.{Read}
use enigma.Engine.{Services, Policy, Dazzle, call}
use enigma.Engine.Compact.{meta_of}
use enigma.Engine.Flush.{flush_when}
use enigma.Engine.Recover.{Replay, replay_files}

-- ` \t\n\r\f\v`
abbrev is_white : ℕ → Bool
is_white b = (b == 32) || (b == 9) || (b == 10) || (b == 13) || (b == 12) || (b == 11)

unfoldable pub trim_front : List ℕ → List ℕ
trim_front [] = []
trim_front (b ∷ s) = let rest = trim_front s in if is_white b then rest else b ∷ s

unfoldable pub trim_string : List ℕ → List ℕ
trim_string s = reverse (trim_front (reverse (trim_front s)))

-- `sst_meta.insert(...)`, which leaves a key that is there alone.
unfoldable pub insert_meta :
    SstableMeta → SortedMap SstableId SstableMeta → SortedMap SstableId SstableMeta
insert_meta meta m = elim (find meta.id m) [ some old ↦ m | none ↦ insert meta.id meta m ]

-- The largest number of a list, at least `n`.
unfoldable pub highest : ℕ → List ℕ → ℕ
highest n [] = n
highest n (m ∷ ms) = highest (max n m) ms

-- The log files with a number below `limit`.
unfoldable pub below : ℕ → List (ℕ × Result Read) → List (ℕ × Result Read)
below limit [] = []
below limit ((seq, file) ∷ files) =
    let rest = below limit files in if ltb seq limit then (seq, file) ∷ rest else rest

abbrev pub numbers : List (ℕ × Result Read) → List ℕ
numbers files = map (λ (f : ℕ × Result Read). f.0) files

module _ {D R W : Type 0} (t : Services D R W) where
  -- The last loop of `recover`, over the log files that were replayed.
  unfoldable pub remove_wals : List ℕ → Io D (Unit {0})
  remove_wals [] = pure tt
  remove_wals (seq ∷ seqs) = t.remove_wal seq >> remove_wals seqs

  abbrev pub flush_if_any : Io (Dazzle D) (Unit {0})
  flush_if_any st = flush_when t (ltb 0 (approximate_size st.active_memtable)) st

  -- `recover` after the replay.
  unfoldable pub finish_recover : List ℕ → ℕ → Io (Dazzle D) ℕ
  finish_recover seqs highest_sequence = do
    flush_if_any
    call (remove_wals seqs)
    modify (λ (st : Dazzle D). record st { lsn = (max st.lsn highest_sequence + 1) % 2 ^ 64 })
    pure highest_sequence

  -- Where the replay fails, the memtable keeps what was replayed; `open` gives the engine up then.
  abbrev pub after_replay :
      List ℕ → Dazzle D → Option (Result Replay) → Option (Dazzle D × Result ℕ)
  after_replay seqs st none = none
  after_replay seqs st (some (err e)) = some (st, err e)
  after_replay seqs st (some fault) = some (st, fault)
  after_replay seqs st (some (ok r)) =
      some
        (finish_recover seqs r.highest_sequence (record st { active_memtable = r.active_memtable }))

  -- `recover` on the old log files, by rising number.
  abbrev pub recover_files : ℕ → Dazzle D → List (ℕ × Result Read) → Option (Dazzle D × Result ℕ)
  recover_files fuel st [] = some (st, ok 0)
  recover_files fuel st (f ∷ files) = after_replay (numbers (f ∷ files)) st (
      replay_files fuel (map (λ (g : ℕ × Result Read). g.1) (f ∷ files))
        (record { active_memtable = st.active_memtable; highest_sequence = 0 }))

  -- `Dazzle::recover`; `none` means that the fuel for a log file ran out.
  unfoldable pub recover : ℕ → Dazzle D → Option (Dazzle D × Result ℕ)
  recover fuel st =
      if t.has_wal_directory st.disk
      then recover_files fuel st
          (sort_by (λ (f : ℕ × Result Read). f.0) (below st.next_wal_seq (t.wal_files st.disk)))
      else some (st, err (error unexpected_err "wal directory does not exist"))

  -- The loop of `open` over the table files, with `max_sst_sequence_found` and `sst_meta`.
  unfoldable pub load_tables :
      List SstableId
      → ℕ
      → SortedMap SstableId SstableMeta
      → Io D (ℕ × SortedMap SstableId SstableMeta)
  load_tables [] found m = pure (found, m)
  load_tables (id ∷ ids) found m = do
    reader ← t.open_sst id
    footer ← returns (t.footer reader)
    load_tables ids (max found footer.highest_sequence) (insert_meta (meta_of id footer) m)

  -- `if (!fs::create_directory(...)) return err(...);`
  abbrev made : String → D × Bool → D × Result (Unit {0})
  made message (d, true) = (d, ok tt)
  made message (d, false) = (d, err (error unexpected_err message))

  -- `if (!fs::is_directory(...))` and the creation.
  abbrev make_directories : Io D (Unit {0})
  make_directories =
      (λ d.
        if t.has_wal_directory d
        then (d, ok tt)
        else made "failed to create wal dir" (t.create_wal_directory d))
      >> (λ d.
          if t.has_sst_directory d
          then (d, ok tt)
          else made "failed to create sst dir" (t.create_sst_directory d))

  -- The engine before it recovers.
  abbrev new_engine : ℕ → Policy → ℕ → ℕ → ℕ × SortedMap SstableId SstableMeta → D → Dazzle D
  new_engine memtable_size policy highest_wal_seq highest_sst_seq (found, sst_meta) d = record {
    disk = d;
    wal_writer = (highest_wal_seq + 1) % 2 ^ 64;
    memtable_size = memtable_size;
    active_memtable = empty memtable_size;
    version_set = new_version_set (record { address = 0; files = sst_meta });
    lsn = (found + 1) % 2 ^ 64;
    next_wal_seq = (highest_wal_seq + 1) % 2 ^ 64;
    next_sst_seq = (highest_sst_seq + 1) % 2 ^ 64;
    policy = policy;
    next_address = 1;
  }

  -- `open` up to its call of `recover`.
  unfoldable pub open_engine : ℕ → Policy → Io D (Dazzle D)
  open_engine memtable_size policy = do
    make_directories
    ids ← (λ d. (d, ok (t.sst_files d)))
    tables ← load_tables ids 0 []
    seqs ← (λ d. (d, ok (numbers (t.wal_files d))))
    t.create_wal ((highest 0 seqs + 1) % 2 ^ 64)
    t.create_cache
    (λ d. (d, ok (new_engine memtable_size policy (highest 0 seqs) (highest 0 ids) tables d)))

  abbrev after_recover : Option (Dazzle D × Result ℕ) → Option (D × Result (Dazzle D))
  after_recover none = none
  after_recover (some (st, ok n)) = some (st.disk, ok st)
  after_recover (some (st, err e)) = some (st.disk, err e)
  after_recover (some (st, fault)) = some (st.disk, fault)

  -- `storage_engine->recover()`, where there is an engine.
  abbrev then_recover : ℕ → D × Result (Dazzle D) → Option (D × Result (Dazzle D))
  then_recover fuel (d, ok st) = after_recover (recover fuel st)
  then_recover fuel (d, err e) = some (d, err e)
  then_recover fuel (d, fault) = some (d, fault)

  -- `Dazzle::open`, with the policy that stands for none given, `SizeTieredCompactionPolicy(4, 8)`.
  unfoldable pub open_dazzle :
      {F : Type 0}
      → Doubles F
      → F
      → F
      → ℕ
      → List ℕ
      → ℕ
      → Option Policy
      → D
      → Option (D × Result (Dazzle D))
  open_dazzle doubles bucket_low bucket_high fuel data_dir memtable_size policy d =
      if length (trim_string data_dir) == 0
      then some (d, err (error bad_config "Data directory was not specified."))
      else then_recover fuel (open_engine memtable_size (chosen policy) d)
    where
      chosen : Option Policy → Policy
      chosen (some p) = p
      chosen none = pick doubles (record {
        min_merge_width = 4;
        max_merge_width = 8;
        bucket_low = bucket_low;
        bucket_high = bucket_high;
      })
