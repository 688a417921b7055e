-- ===== src/Engine/Tests.antt =====
-- The engine on small disks in memory.
use enigma.Prelude.{
  false, Option, none, some, List, [], ◌∷◌, ◌≡◌, ◌≢◌, ◌⊎◌, refl, arith, ◌==◌, if◌then◌else◌,
}
use mathlib.Core.List.{reverse}
use enigma.Error.{Result, Error, ok, err, error, write_err, bad_config}
use enigma.Storage.{InternalValue, key_ord}
use enigma.Memtable.{empty}
use enigma.Memtable.Contents.{live}
use enigma.Memtable.Size.{empty-IsCounted}
use enigma.VersionSet.{SstableId, SstableMeta, Version, VersionSet, new_version_set, apply}
use enigma.Engine.{Services, Dazzle}
use enigma.SortedMap.{find, insert, erase}
use enigma.Prelude.Ord.{compare_bytes}
use enigma.Engine.Calls.{FailsAt}
use enigma.Engine.Memory.{Memory, Table, Writer, in_memory}
use enigma.Engine.Lookup.{get, lookup_internal}
use enigma.Engine.Lookup.Newest.{IsNewest, lookup_internal-IsNewest}
use enigma.Engine.Lookup.Shadow.{lookup_internal-shadowed}
use enigma.Engine.Flush.Kept.{Kept}
use enigma.Engine.Write.{put, put_or_remove}
use enigma.Engine.Write.Ahead.{numbered, IsLogged, put_or_remove-IsLogged}
use enigma.Engine.Write.Acknowledged.{
  Operation, put_key, remove_key, perform_all, expected, names, operation_bytes, get-perform_all,
}

-- An engine that just began, with room for nine bytes in its memtable.
abbrev fresh : Dazzle Memory
fresh = record {
  disk = λ id. none;
  wal_writer = 1;
  memtable_size = 9;
  active_memtable = empty 9;
  version_set = new_version_set (record { address = 0; files = [] });
  lsn = 1;
  next_wal_seq = 2;
  next_sst_seq = 1;
  policy = λ live. none;
  next_address = 1;
}

abbrev operations : List Operation
operations = put_key (1 ∷ []) (10 ∷ []) ∷ put_key (2 ∷ []) (20 ∷ []) ∷ remove_key (1 ∷ []) ∷ []

abbrev performed : Dazzle Memory
performed = (perform_all in_memory operations fresh).0

get-perform_all_example :
    get in_memory (2 ∷ []) performed ≡ (performed, ok (expected (2 ∷ []) none operations))
unfolding operation_bytes enigma.Memtable.Size.total_bytes names
    enigma.Engine.Write.Acknowledged.perform perform_all put enigma.Engine.Write.remove
    put_or_remove enigma.Memtable.put enigma.Memtable.remove enigma.Memtable.should_flush find
    insert compare_bytes
get-perform_all_example =
    get-perform_all in_memory (2 ∷ []) operations fresh performed (empty-IsCounted 9) (omega arith)
      (omega arith) refl refl

-- One entry waits in the memtable.
abbrev waiting : Dazzle Memory
waiting = record fresh {
  active_memtable = record {
    bytes = 2;
    max_memtable_size = 9;
    entries = ((1 ∷ []), live (10 ∷ []) 1) ∷ [];
  };
}

abbrev meta_with : SstableId → SstableMeta
meta_with id = record { id = id; size_bytes = 100; entry_count = 1; max_sequence = 9 }

-- Table 1 has an old entry of the key, table 2 a newer one.
abbrev two_tables : Memory
two_tables id =
    if id == 1
    then some (((1 ∷ []), live (10 ∷ []) 1) ∷ [])
    else if id == 2
    then some (((1 ∷ []), live (20 ∷ []) 5) ∷ [])
    else none

abbrev version : Version
version = record { address = 0; files = (1, meta_with 1) ∷ (2, meta_with 2) ∷ [] }

abbrev answer : Memory × Result (Option InternalValue)
answer = lookup_internal in_memory version (1 ∷ []) two_tables

lookup_internal-IsNewest_example :
    IsNewest in_memory (1 ∷ []) (reverse version.files) two_tables answer.0 answer.1
lookup_internal-IsNewest_example =
    lookup_internal-IsNewest in_memory version (1 ∷ []) two_tables answer.0 answer.1
      ((refl, tt), (tt, tt)) refl

-- Tables 1 and 3 were compacted into table 4; table 2, with a newer entry than that of table 1, stays.
abbrev before_compaction : VersionSet
before_compaction =
    new_version_set
      (record { address = 0; files = (1, meta_with 1) ∷ (2, meta_with 2) ∷ (3, meta_with 3) ∷ [] })

abbrev compacted : Version
compacted = record { address = 1; files = (2, meta_with 2) ∷ (4, meta_with 4) ∷ [] }

abbrev after_compaction : VersionSet
after_compaction = record {
  current_version = compacted;
  live_versions = compacted ∷ [];
  pending_obsolete_ids = [];
}

abbrev compacted_tables : Memory
compacted_tables id =
    if id == 4
    then some (((1 ∷ []), live (10 ∷ []) 1) ∷ [])
    else if id == 2
    then some (((1 ∷ []), live (20 ∷ []) 5) ∷ [])
    else none

lookup_internal-shadowed_example :
    (lookup_internal in_memory compacted (1 ∷ []) compacted_tables
      ≡ (compacted_tables, ok (some (live (10 ∷ []) 1))))
    × ((lookup_internal in_memory compacted (1 ∷ []) compacted_tables).1
        ≢ ok (some (live (20 ∷ []) 5)))
unfolding apply find compare_bytes erase insert
lookup_internal-shadowed_example =
    lookup_internal-shadowed in_memory [] 1 (1 ∷ 3 ∷ []) (meta_with 4) before_compaction
      after_compaction (1 ∷ 3 ∷ []) (1 ∷ []) (live (10 ∷ []) 1) (live (20 ∷ []) 5) 2
      compacted_tables compacted_tables compacted_tables compacted_tables (omega arith, tt) refl
      refl refl refl (omega arith)

abbrev disk_full : Error
disk_full = error write_err "no space left on device"

-- A log that takes no record.
abbrev full_disk : Services Memory Table Writer
full_disk = record in_memory { append_wal = λ n r d. (d, err disk_full) }

abbrev refused : Dazzle Memory × Result (Unit {0})
refused = put_or_remove full_disk (1 ∷ []) (10 ∷ []) false fresh

put_or_remove-IsLogged_example :
    IsLogged full_disk (1 ∷ []) (10 ∷ []) false fresh refused.0 refused.1
    ⊎ FailsAt (numbered fresh) refused.0 refused.1
put_or_remove-IsLogged_example =
    put_or_remove-IsLogged full_disk (1 ∷ []) (10 ∷ []) false fresh refused.0 refused.1 refl

-- A put of no bytes is refused.
empty_put : put in_memory (1 ∷ []) [] fresh ≡ (fresh, err (error bad_config "value is empty"))
unfolding put
empty_put = refl
