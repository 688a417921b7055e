-- ===== src/Engine/Recover/Tests.antt =====
-- A recovery from two log files, and the theorem at it.
use enigma.Prelude.{◌≡◌, refl, arith, some, List, [], ◌∷◌, ◌++◌, replicate, take, drop}
use enigma.Error.{Result, ok}
use enigma.Memtable.{empty}
use enigma.Wal.Record.{WalRecord, put_row, delete_row}
use enigma.Wal.Reader.{Read}
use enigma.Wal.Reader.Replay.{log}
use enigma.Engine.Recover.{Replay, replay_files}
use enigma.Engine.Recover.Durability.{IsRecovered, all_records, replay_files-IsRecovered}

abbrev old_log : List WalRecord
old_log =
    record { op_type = put_row; timestamp = 5; sequence = 1; key = 7 ∷ []; value = 9 ∷ [] } ∷ []

abbrev new_log : List WalRecord
new_log =
    record { op_type = delete_row; timestamp = 6; sequence = 2; key = 7 ∷ []; value = [] } ∷ []

abbrev file_of : List WalRecord → Result Read
file_of rs = ok (λ count offset. ok (take count (drop offset (log rs ++ replicate 3 0))))

abbrev fresh : Replay
fresh = record { active_memtable = empty 100; highest_sequence = 0 }

replay_files-IsRecovered_example :
    (st : Replay) × (replay_files 2 (file_of old_log ∷ file_of new_log ∷ []) fresh ≡ some (ok st))
    × IsRecovered fresh (all_records (old_log ∷ new_log ∷ [])) st
replay_files-IsRecovered_example =
    replay_files-IsRecovered 2 (old_log ∷ new_log ∷ []) (file_of old_log ∷ file_of new_log ∷ [])
      fresh
      (
        (3, (λ count offset. refl), (omega arith, tt), omega arith),
        ((3, (λ count offset. refl), (omega arith, tt), omega arith), tt),
      )
