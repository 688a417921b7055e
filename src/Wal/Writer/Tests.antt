-- ===== src/Wal/Writer/Tests.antt =====
-- A log written one byte at a time, and the theorem at it.
use enigma.Prelude.{ℕ, ◌<◌, ◌≤◌, some, List, [], ◌∷◌, ◌++◌, ◌≡◌, arith, subst, ap}
use enigma.Error.{ok}
use enigma.Wal.Record.{WalRecord, put_row, delete_row, serialize_wal_record}
use enigma.Wal.Reader.Replay.{log}
use enigma.PosixIoEngine.{Writing, WriteCall}
use enigma.PosixIoEngine.Transfer.{IsWrite}
use enigma.Wal.Writer.{append_records}
use enigma.Wal.Writer.Growth.{append_records-log}

abbrev one_more : WriteCall
one_more call count = Writing.bytes_written 1

abbrev count_of : Writing → ℕ
count_of (Writing.bytes_written n) = n
count_of _ = 0

one_more-IsWrite : IsWrite 0 one_more
one_more-IsWrite = record {
  correct = λ call count n h some_left.
      subst (λ m. (0 < m) × (m ≤ count)) (ap count_of h) (omega arith, omega arith);
  patient = λ call count h. absurd (ground arith);
  healthy = λ call count message h. ground arith;
}

abbrev records : List WalRecord
records =
    record { op_type = put_row; timestamp = 5; sequence = 1; key = 7 ∷ []; value = 9 ∷ [] }
    ∷ record { op_type = delete_row; timestamp = 6; sequence = 2; key = 7 ∷ []; value = [] }
    ∷ []

append_records-log_example : append_records 60 one_more [] records ≡ some ([] ++ log records, ok tt)
unfolding serialize_wal_record
append_records-log_example =
    append_records-log 0 one_more one_more-IsWrite 60 [] records (omega arith, (omega arith, tt))
