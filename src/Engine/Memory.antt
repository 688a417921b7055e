-- ===== src/Engine/Memory.antt =====
-- Services in memory for the tests of the engine: a disk is the tables by their numbers.
use enigma.Prelude.{◌==◌, if◌then◌else◌, true, Option, none, some, [], ◌∷◌, ◌++◌}
use enigma.Error.{Result, ok, err, error, unexpected_err}
use enigma.Io.{Io}
use enigma.Storage.{Key, InternalValue, key_ord}
use enigma.SortedMap.{SortedMap, find}
use enigma.Sstable.{SstFooter}
use enigma.VersionSet.{SstableId}
use enigma.Engine.{Services}

abbrev pub Table : Type 0
Table = SortedMap Key InternalValue

abbrev pub Memory : Type 0
Memory = SstableId → Option Table

abbrev pub Writer : Type 0
Writer = SstableId × Table

abbrev put_table : SstableId → Option Table → Memory → Memory
put_table id m d j = if j == id then m else d j

abbrev nothing : Io Memory (Unit {0})
nothing d = (d, ok tt)

abbrev open_table : Option Table → Result Table
open_table none = err (error unexpected_err "no such table")
open_table (some m) = ok m

abbrev no_footer : SstFooter
no_footer = record {
  index_block_offset = 0;
  index_block_size = 0;
  filter_block_offset = 0;
  filter_block_size = 0;
  entry_count = 0;
  format_version = 0;
  highest_sequence = 0;
  size_bytes = 0;
}

abbrev pub in_memory : Services Memory Table Writer
in_memory = record {
  create_wal = λ n. nothing;
  append_wal = λ n r. nothing;
  sync_wal = λ n. nothing;
  remove_wal = λ n. nothing;
  wal_files = λ d. [];
  timestamp = λ d. (d, ok 0);
  get = λ id d. (d, open_table (d id));
  evict = λ id d. d;
  read = λ m key d. (d, ok (find key m));
  footer = λ m. ok no_footer;
  create_sst = λ id n d. (d, ok (id, []));
  add = λ w key value d. (d, ok (w.0, w.1 ++ ((key, value) ∷ [])));
  finish = λ w d. (put_table w.0 (some w.1) d, ok tt);
  remove_sst = λ id d. (put_table id none d, ok tt);
  compact = λ inputs id full d. (d, err (error unexpected_err "no compaction"));
  sst_files = λ d. [];
  open_sst = λ id d. (d, open_table (d id));
  create_cache = nothing;
  has_wal_directory = λ d. true;
  has_sst_directory = λ d. true;
  create_wal_directory = λ d. (d, true);
  create_sst_directory = λ d. (d, true);
}
