-- ===== src/Wal/Reader/Tests.antt =====
-- Runs of the log reader, and its theorems at concrete inputs.
use enigma.Prelude.{
  ℕ, ◌≡◌, ◌≢◌, refl, arith, List, [], ◌∷◌, ◌++◌, take, drop, replicate, none, some,
}
use enigma.Error.{ok}
use enigma.Wal.Record.{WalRecord, put_row, delete_row}
use enigma.Wal.Reader.{Read, Reads, read_all}
use enigma.Wal.Reader.Replay.{log, read_all-log}
use enigma.Wal.Reader.Ends.{read_all-ends}

abbrev pub read_of : List ℕ → Read
read_of file count offset = ok (take count (drop offset file))

pub read_of-Reads : (file : List ℕ) → Reads file (read_of file)
read_of-Reads file count offset = refl

abbrev two_writes : List WalRecord
two_writes =
    record { op_type = put_row; timestamp = 5; sequence = 1; key = 7 ∷ 8 ∷ []; value = 9 ∷ [] }
    ∷ record { op_type = delete_row; timestamp = 6; sequence = 2; key = 7 ∷ 8 ∷ []; value = [] }
    ∷ []

read_all-log_example :
    read_all 3 (read_of (log two_writes ++ replicate 2 0)) 0 ≡ some (ok two_writes)
read_all-log_example = read_all-log two_writes 2 3 _ (read_of-Reads _) (omega arith) (omega arith)

read_all-ends_example : read_all 4 (read_of (1 ∷ 2 ∷ 3 ∷ [])) 0 ≢ none
read_all-ends_example = read_all-ends (1 ∷ 2 ∷ 3 ∷ []) _ (read_of-Reads _)
