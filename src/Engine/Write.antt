-- ===== src/Engine/Write.antt =====
-- `Dazzle::put` and `Dazzle::remove`.
pub mod Ahead
pub mod Acknowledged
use enigma.Prelude.{ℕ, Bool, true, false, Option, none, some, List, [], ◌∷◌, if◌then◌else◌}
use enigma.Error.{Result, ok, err, error, bad_config}
use enigma.Io.{Io, pure, modify, ◌>>=◌, ◌>>◌}
use enigma.Storage.{Key}
use enigma.Memtable
use enigma.Memtable.{Memtable, should_flush}
use enigma.Wal.Record.{WalRecord, WalOpType, put_row, delete_row}
use enigma.Engine.{Services, Dazzle, call, bump_lsn_sequence}
use enigma.Engine.Flush.{flush_when}

-- What the memtable becomes: the row is removed, or put.
abbrev pub write_memtable : Bool → Key → List ℕ → ℕ → Memtable → Memtable
write_memtable true key value sequence m = Memtable.remove m key sequence
write_memtable false key value sequence m = Memtable.put m key value sequence

abbrev pub record_of : Bool → ℕ → ℕ → Key → List ℕ → WalRecord
record_of remove timestamp sequence key value = record {
  op_type = if remove then delete_row else put_row;
  timestamp = timestamp;
  sequence = sequence;
  key = key;
  value = value;
}

module _ {D R W : Type 0} (t : Services D R W) where
  -- `wal_writer_.value().append(record)` and then `sync()`.
  abbrev pub log_record : WalRecord → Io (Dazzle D) (Unit {0})
  log_record r st = (call (t.append_wal st.wal_writer r) >> call (t.sync_wal st.wal_writer)) st

  -- `if (active_memtable_.should_flush())`
  abbrev pub flush_if_full : Io (Dazzle D) (Unit {0})
  flush_if_full st = flush_when t (should_flush st.active_memtable) st

  -- The private `put`; the value of a removal is empty.
  unfoldable pub put_or_remove : Key → List ℕ → Bool → Io (Dazzle D) (Unit {0})
  put_or_remove key value remove = do
    sequence ← bump_lsn_sequence
    timestamp ← call t.timestamp
    log_record (record_of remove timestamp sequence key value)
    modify (λ (st : Dazzle D). record st {
      active_memtable = write_memtable remove key value sequence st.active_memtable;
    })
    flush_if_full

  unfoldable pub put : Key → List ℕ → Io (Dazzle D) (Unit {0})
  put key [] st = (st, err (error bad_config "value is empty"))
  put key (b ∷ value) st = put_or_remove key (b ∷ value) false st

  unfoldable pub remove : Key → Io (Dazzle D) (Unit {0})
  remove key = put_or_remove key [] true
