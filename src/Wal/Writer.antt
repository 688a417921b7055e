-- ===== src/Wal/Writer.antt =====
-- src/storage/dazzle_db/wal/wal_writer.cpp: appending records through the I/O engine.
pub mod Growth
mod Tests
use enigma.Prelude.{ℕ, false, Option, none, some, List, [], ◌∷◌}
use enigma.Error.{Result, ok, err, fault}
use enigma.Wal.Record.{WalRecord, serialize_wal_record}
use enigma.PosixIoEngine.{WriteCall, append}

-- `if (!append_result.has_value()) return err(append_result.error()); return ok();`
abbrev pub forget_count : Result ℕ → Result (Unit {0})
forget_count (ok n) = ok tt
forget_count (err e) = err e
forget_count fault = fault

abbrev pub after_append : Option (List ℕ × Result ℕ) → Option (List ℕ × Result (Unit {0}))
after_append none = none
after_append (some (file, result)) = some (file, forget_count result)

-- `WalWriter::append`: the file and the result.
unfoldable pub append_record :
    ℕ → WriteCall → List ℕ → WalRecord → Option (List ℕ × Result (Unit {0}))
append_record fuel write file record' =
    after_append (append fuel false write file (serialize_wal_record record'))

-- The next record, once the one before it was appended.
abbrev pub then_append :
    Option (List ℕ × Result (Unit {0}))
    → (List ℕ → Option (List ℕ × Result (Unit {0})))
    → Option (List ℕ × Result (Unit {0}))
then_append none more = none
then_append (some (file, err e)) more = some (file, err e)
then_append (some (file, fault)) more = some (file, fault)
then_append (some (file, ok u)) more = more file

-- One call of `append` after the other, until one fails.
unfoldable pub append_records :
    ℕ → WriteCall → List ℕ → List WalRecord → Option (List ℕ × Result (Unit {0}))
unfolding append_record
append_records fuel write file [] = some (file, ok tt)
append_records fuel write file (r ∷ rs) =
    then_append (append_record fuel write file r) (λ grown. append_records fuel write grown rs)
