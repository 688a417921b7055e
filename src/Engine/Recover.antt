-- ===== src/Engine/Recover.antt =====
-- The part of `Dazzle::recover` that replays the old log files into the active memtable.
pub mod Durability
mod Tests
use enigma.Prelude.{ℕ, zero, suc, Option, none, some, List, [], ◌∷◌, ltb, ◌==◌, if◌then◌else◌}
use enigma.Error.{Result, ok, err, fault}
use enigma.Memtable.{Memtable, put, remove}
use enigma.Wal.Record.{WalRecord, delete_row}
use enigma.Wal.Reader.{Read, next}

-- `active_memtable_` and `highest_wal_lsn_sequence`.
pub record Replay : Type 0 where
  pub active_memtable : Memtable
  pub highest_sequence : ℕ

-- What the loop does with one record.
unfoldable pub replay_record : Replay → WalRecord → Replay
replay_record st r = record {
  active_memtable =
      if r.op_type == delete_row
      then remove st.active_memtable r.key r.sequence
      else put st.active_memtable r.key r.value r.sequence;
  highest_sequence = if ltb st.highest_sequence r.sequence then r.sequence else st.highest_sequence;
}

-- `if (!possible_next.has_value()) break;` and then the rest of the loop.
abbrev pub after_next :
    Result WalRecord → Replay → (WalRecord → Option (Result Replay)) → Option (Result Replay)
after_next (err e) st more = some (ok st)
after_next fault st more = some fault
after_next (ok r) st more = more r

-- The `while (true)` over one file; `none` means that the fuel ran out.
unfoldable pub replay_log : ℕ → Read → ℕ → Replay → Option (Result Replay)
unfolding next replay_record
replay_log zero read offset st = none
replay_log (suc fuel) read offset st =
    after_next (next read offset).0 st
      (λ r. replay_log fuel read (next read offset).1 (replay_record st r))

abbrev pub after_log :
    Option (Result Replay) → (Replay → Option (Result Replay)) → Option (Result Replay)
after_log none more = none
after_log (some (err e)) more = some (err e)
after_log (some fault) more = some fault
after_log (some (ok st)) more = more st

-- The loop over the files, each opened by `WalReader::create`.
unfoldable pub replay_files : ℕ → List (Result Read) → Replay → Option (Result Replay)
unfolding replay_log
replay_files fuel [] st = some (ok st)
replay_files fuel (err e ∷ files) st = some (err e)
replay_files fuel (fault ∷ files) st = some fault
replay_files fuel (ok read ∷ files) st =
    after_log (replay_log fuel read 0 st) (λ st'. replay_files fuel files st')
