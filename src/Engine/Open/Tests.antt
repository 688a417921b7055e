-- ===== src/Engine/Open/Tests.antt =====
-- A recovery on a disk in memory with one log.
use enigma.Prelude.{none, List, [], ◌∷◌, ◌++◌, take, drop, replicate}
use enigma.Error.{ok}
use enigma.Memtable.{empty}
use enigma.VersionSet.{new_version_set}
use enigma.Wal.Record.{WalRecord, put_row, delete_row}
use enigma.Wal.Reader.{Read}
use enigma.Wal.Reader.Replay.{log}
use enigma.Engine.{Services, Dazzle}
use enigma.Engine.Memory.{Memory, Table, Writer, in_memory}
use enigma.Engine.Recover.{Replay}

abbrev records : List WalRecord
records =
    record { op_type = put_row; timestamp = 5; sequence = 1; key = 7 ∷ []; value = 9 ∷ [] }
    ∷ record { op_type = delete_row; timestamp = 6; sequence = 2; key = 8 ∷ []; value = [] }
    ∷ []

abbrev read_log : Read
read_log count offset = ok (take count (drop offset (log records ++ replicate 3 0)))

-- The services in memory, with the log as segment 1.
abbrev with_log : Services Memory Table Writer
with_log = record in_memory { wal_files = λ d. (1, ok read_log) ∷ [] }

abbrev opened : Dazzle Memory
opened = record {
  disk = λ id. none;
  wal_writer = 2;
  memtable_size = 100;
  active_memtable = empty 100;
  version_set = new_version_set (record { address = 0; files = [] });
  lsn = 1;
  next_wal_seq = 2;
  next_sst_seq = 1;
  policy = λ live. none;
  next_address = 1;
}

abbrev start : Replay
start = record { active_memtable = opened.active_memtable; highest_sequence = 0 }
