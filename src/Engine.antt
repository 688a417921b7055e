-- ===== src/Engine.antt =====
-- src/storage/dazzle_db/dazzle_engine.cpp: the engine on top of the other components, one call at a
-- time. `D` is all that it reaches outside of its own fields: the files and the table cache. `R`
-- is a table reader, `W` a table writer.
pub mod Calls
pub mod Recover
pub mod Lookup
pub mod Compact
pub mod Flush
pub mod Write
pub mod Open
pub mod Memory
mod Tests
use enigma.Prelude.{ℕ, ◌+◌, ◌%◌, ◌^◌, Bool, Option, List}
use enigma.Error.{Result, ok}
use enigma.Io.{Io}
use enigma.Storage.{Key, InternalValue}
use enigma.Memtable.{Memtable}
use enigma.Wal.Record.{WalRecord}
use enigma.Wal.Reader.{Read}
use enigma.Sstable.{SstFooter}
use enigma.VersionSet.{SstableId, SstableMeta, VersionSet}
use enigma.Compaction.Policy.{CompactionCandidate}

-- What the engine calls. A log segment and a table file stand under their numbers.
pub record Services (D R W : Type 0) : Type 0 where
  -- `WalWriter::create(wal_path(n))`, and `append` and `sync` of the writer of that segment
  pub create_wal : ℕ → Io D (Unit {0})
  pub append_wal : ℕ → WalRecord → Io D (Unit {0})
  pub sync_wal : ℕ → Io D (Unit {0})
  -- `fs::remove(wal_path(n))`, which throws where it fails
  pub remove_wal : ℕ → Io D (Unit {0})
  -- `directory_iterator` over the log files: the number of each and the read of its file, where
  -- `WalReader::create` opens it
  pub wal_files : D → List (ℕ × Result Read)
  -- `TimestampGenerator::next`
  pub timestamp : Io D ℕ
  -- `TableCache::get` and `evict`
  pub get : SstableId → Io D R
  pub evict : SstableId → D → D
  -- `SSTableReader::get` and `get_footer`
  pub read : R → Key → Io D (Option InternalValue)
  pub footer : R → Result SstFooter
  -- `SSTableWriter::create(sst_path(n))` with the estimated number of keys, `add` and `finish`
  pub create_sst : SstableId → ℕ → Io D W
  pub add : W → Key → InternalValue → Io D W
  pub finish : W → Io D (Unit {0})
  -- `engine_.remove(sst_path(n))`
  pub remove_sst : SstableId → Io D (Unit {0})
  -- `Compactor::compact`
  pub compact : List SstableId → SstableId → Bool → Io D SstableId
  -- `directory_iterator` over the table files: the number of each
  pub sst_files : D → List SstableId
  -- `SSTableReader::create(sst_path(n))`
  pub open_sst : SstableId → Io D R
  -- `TableCache::create` on a new LRU cache
  pub create_cache : Io D (Unit {0})
  -- `fs::is_directory` and `fs::create_directory` of the two directories
  pub has_wal_directory : D → Bool
  pub has_sst_directory : D → Bool
  pub create_wal_directory : D → D × Bool
  pub create_sst_directory : D → D × Bool

-- A `CompactionPolicy`, by its `pick`.
abbrev pub Policy : Type 0
Policy = List SstableMeta → Option CompactionCandidate

-- `wal_writer` is the number of the segment that `wal_writer_` appends to, `next_address` where the
-- next version is allocated.
pub record Dazzle (D : Type 0) : Type 0 where
  pub disk : D
  pub wal_writer : ℕ
  pub memtable_size : ℕ
  pub active_memtable : Memtable
  pub version_set : VersionSet
  pub lsn : ℕ
  pub next_wal_seq : ℕ
  pub next_sst_seq : ℕ
  pub policy : Policy
  pub next_address : ℕ

module _ {D : Type 0} where
  -- A call outside the engine, from what it comes to.
  abbrev pub with_disk : {A : Type 0} → Dazzle D → D × Result A → Dazzle D × Result A
  with_disk st (d, r) = (record st { disk = d }, r)

  abbrev pub call : {A : Type 0} → Io D A → Io (Dazzle D) A
  call io st = with_disk st (io st.disk)

  -- `fetch_add(1)` on the three counters of 64 bits.
  abbrev pub bump_lsn_sequence : Io (Dazzle D) ℕ
  bump_lsn_sequence st = (record st { lsn = (st.lsn + 1) % 2 ^ 64 }, ok st.lsn)

  abbrev pub mint_sst_id : Io (Dazzle D) ℕ
  mint_sst_id st = (record st { next_sst_seq = (st.next_sst_seq + 1) % 2 ^ 64 }, ok st.next_sst_seq)

  abbrev pub mint_wal_id : Io (Dazzle D) ℕ
  mint_wal_id st = (record st { next_wal_seq = (st.next_wal_seq + 1) % 2 ^ 64 }, ok st.next_wal_seq)
