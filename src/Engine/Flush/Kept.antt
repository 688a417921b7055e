-- ===== src/Engine/Flush/Kept.antt =====
-- A flush gives up the memtable and the old log only when its table is in the version.
use enigma.Prelude.{◌+◌, ◌%◌, ◌^◌, List, ◌≡◌}
use enigma.Error.{Result, ok}
use enigma.Io.{Io, ◌>>◌, Fails}
use enigma.Prelude.Ord.{nat_ord}
use enigma.SortedMap.{insert}
use enigma.Memtable.{count, empty, sub64}
use enigma.Sstable.{SstFooter}
use enigma.VersionSet.{SstableId, VersionSet}
use enigma.Engine.{Services, Dazzle, call}
use enigma.Engine.Compact.{meta_of, reclaim}
use enigma.Engine.Flush.{write_table, try_compact}

module _ {D : Type 0} where
  -- The engine with a number for the new table, and one for the new log segment.
  abbrev minted : Dazzle D → Dazzle D
  minted st = record st { next_sst_seq = (st.next_sst_seq + 1) % 2 ^ 64 }

  abbrev pub before_install : Dazzle D → Dazzle D
  before_install st = record (minted st) { next_wal_seq = (st.next_wal_seq + 1) % 2 ^ 64 }

  -- The engine with another version set.
  abbrev pub installed : VersionSet → Dazzle D → Dazzle D
  installed set st = record st { version_set = set; next_address = st.next_address + 1 }

  -- The engine when its table is in the version, and new writes go to the new segment.
  abbrev pub flushed : VersionSet → D → Dazzle D → Dazzle D
  flushed set d st = record (installed set (before_install st)) {
    disk = d;
    wal_writer = st.next_wal_seq;
    active_memtable = empty st.memtable_size;
  }

  -- A failure, with the memtable as it was and the writes going to the segment that they went to.
  abbrev pub Kept : Dazzle D → Dazzle D → Result (Unit {0}) → Type 0
  Kept st st' r =
      (st'.active_memtable ≡ st.active_memtable) × (st'.wal_writer ≡ st.wal_writer) × Fails r

module _ {D R W : Type 0} (t : Services D R W) where
  -- The table with the memtable's entries was written, finished and opened, the new log segment was
  -- made, the table was added to the version; only then is the old segment removed, with an empty
  -- memtable, and a compaction tried.
  pub record IsFlushed (st st' : Dazzle D) (r : Result (Unit {0})) : Type 0 where
    pub d1 : D
    pub d2 : D
    pub d3 : D
    pub d4 : D
    pub reader : R
    pub footer : SstFooter
    pub ids : List SstableId
    pub set : VersionSet
    pub written :
        write_table t st.next_sst_seq (count st.active_memtable) st.active_memtable.entries st.disk
        ≡ (d1, ok tt)
    pub opened : t.get st.next_sst_seq d1 ≡ (d2, ok reader)
    pub segment : t.create_wal st.next_wal_seq d2 ≡ (d3, ok tt)
    pub described : t.footer reader ≡ ok footer
    pub listed :
        set.current_version.files
        ≡ insert st.next_sst_seq
            (meta_of st.next_sst_seq footer)
            st.version_set.current_version.files
    pub reclaimed : reclaim t ids d3 ≡ (d4, ok tt)
    pub rest :
        (call (t.remove_wal (sub64 st.next_wal_seq 1)) >> try_compact t) (flushed set d4 st)
        ≡ (st', r)
