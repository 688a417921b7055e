-- ===== src/Engine/Flush.antt =====
-- `Dazzle::flush`: the memtable becomes a table, and the log begins a new segment.
pub mod Kept
pub mod Number
use enigma.Prelude.{
  Bool, ℕ, ◌-◌, ◌+◌, ◌^◌, ◌%◌, Option, none, some, List, [], ◌∷◌, ◌==◌, if◌then◌else◌,
}
use enigma.Error.{Result, ok, err, fault}
use enigma.Io.{Io, pure, returns, modify, ◌>>=◌, ◌>>◌}
use enigma.Storage.{Key, InternalValue}
use enigma.SortedMap.{SortedMap}
use enigma.Memtable.{count, empty, sub64}
use enigma.VersionSet.{SstableId}
use enigma.Engine.{Services, Dazzle, call, mint_sst_id, mint_wal_id}
use enigma.Engine.Compact.{meta_of, install_flushed_sst, do_compact_work}

module _ {D R W : Type 0} (t : Services D R W) where
  -- The loop from `begin()` to `end()` of the memtable.
  unfoldable pub add_entries : SortedMap Key InternalValue → W → Io D W
  add_entries [] writer = pure writer
  add_entries ((key, value) ∷ entries) writer =
      t.add writer key value >>= λ grown. add_entries entries grown

  -- A new table with the entries, estimated to be `estimated` many, under the number.
  unfoldable pub write_table : SstableId → ℕ → SortedMap Key InternalValue → Io D (Unit {0})
  write_table id estimated entries = do
    writer ← t.create_sst id estimated
    filled ← add_entries entries writer
    t.finish filled

  -- `wal_writer_.emplace(...)` and `active_memtable_ = ...`
  abbrev pub rotate : ℕ → Dazzle D → Dazzle D
  rotate new_wal_seq st = record st {
    wal_writer = new_wal_seq;
    active_memtable = empty st.memtable_size;
  }

  -- A failed compaction is reported on the error stream, and no more.
  abbrev pub unless_fault : Dazzle D × Result (Option SstableId) → Dazzle D × Result (Unit {0})
  unless_fault (st, ok id) = (st, ok tt)
  unless_fault (st, err e) = (st, ok tt)
  unless_fault (st, fault) = (st, fault)

  abbrev pub try_compact : Io (Dazzle D) (Unit {0})
  try_compact st = unless_fault (do_compact_work t st)

  -- What `flush` does where the memtable has entries.
  unfoldable pub flush_entries : Io (Dazzle D) (Unit {0})
  flush_entries st = do_flush st
    where
      do_flush : Io (Dazzle D) (Unit {0})
      do_flush = do
        new_sequence ← mint_sst_id
        call (write_table new_sequence (count st.active_memtable) st.active_memtable.entries)
        reader ← call (t.get new_sequence)
        new_wal_seq ← mint_wal_id
        call (t.create_wal new_wal_seq)
        footer ← returns (t.footer reader)
        install_flushed_sst t (meta_of new_sequence footer)
        modify (rotate new_wal_seq)
        call (t.remove_wal (sub64 new_wal_seq 1))
        try_compact

  -- `Dazzle::flush`
  unfoldable pub flush : Io (Dazzle D) (Unit {0})
  flush st = if count st.active_memtable == 0 then (st, ok tt) else flush_entries st

  -- A flush under a condition.
  abbrev pub flush_when : Bool → Io (Dazzle D) (Unit {0})
  flush_when condition st = if condition then flush st else (st, ok tt)
