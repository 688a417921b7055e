-- ===== src/Wal/Reader.antt =====
-- src/storage/dazzle_db/wal/wal_reader.cpp, and the loop of `Dazzle::recover` that reads one log
-- to its end. The file is reached through `IOEngine::read`, a parameter here.
pub mod Replay
pub mod Ends
mod Tests
use enigma.Prelude.{
  ℕ, zero, suc, ◌+◌, ◌-◌, ◌%◌, ◌^◌, ◌≡◌, List, [], ◌∷◌, ◌++◌, length, take, drop, replicate, ltb,
  ◌==◌, if◌then◌else◌, Option, none, some,
}
use enigma.Error.{Result, ok, err, fault, error, err_eof}
use enigma.Encoding.{decode_uint32}
use enigma.Wal.Record.{WalRecord, deserialize_wal_record}

-- `engine_.read(fh_, count, buffer, offset)`: the bytes that it put at the front of the buffer.
abbrev pub Read : Type 0
Read = ℕ → ℕ → Result (List ℕ)

-- The documented behaviour of a read that meets no error: the bytes of the file from `offset` on, as
-- many as there are of those asked for.
abbrev pub Reads : List ℕ → Read → Type 0
Reads file read = (count offset : ℕ) → read count offset ≡ ok (take count (drop offset file))

-- A zeroed buffer of `size` bytes after a read into it.
abbrev pub overlay : List ℕ → ℕ → List ℕ
overlay bytes size = bytes ++ replicate (size - length bytes) 0

-- `body_length + 8` is a sum of 32 bits.
abbrev pub record_size : ℕ → ℕ
record_size body_length = (body_length + 8) % 2 ^ 32

-- The second half of `next`, on the bytes of the whole record.
abbrev finish_next : Result (List ℕ) → ℕ → ℕ → Result WalRecord × ℕ
finish_next (err e) size offset = (err e, offset)
finish_next fault size offset = (fault, offset)
finish_next (ok bytes) size offset = (deserialize_wal_record (overlay bytes size), offset + size)

abbrev read_body : Read → ℕ → Option ℕ → Result WalRecord × ℕ
read_body read offset none = (fault, offset)
read_body read offset (some body_length) =
    if ltb body_length 25
    then (err (error err_eof "wal reader encountered eof"), offset)
    else finish_next (read (record_size body_length) offset) (record_size body_length) offset

abbrev read_header : Read → ℕ → Result (List ℕ) → Result WalRecord × ℕ
read_header read offset (err e) = (err e, offset)
read_header read offset fault = (fault, offset)
read_header read offset (ok bytes) =
    if length bytes == 0
    then (err (error err_eof "end of WAL file"), offset)
    else read_body read offset (decode_uint32 (overlay bytes 9) 0)

-- `WalReader::next`: the result and the new `offset_`.
unfoldable pub next : Read → ℕ → Result WalRecord × ℕ
next read offset = read_header read offset (read 8 offset)

-- A record before the rest of the log.
abbrev pub prepend : WalRecord → Option (Result (List WalRecord)) → Option (Result (List WalRecord))
prepend r none = none
prepend r (some (err e)) = some (err e)
prepend r (some fault) = some fault
prepend r (some (ok rs)) = some (ok (r ∷ rs))

abbrev pub collect :
    Result WalRecord → Option (Result (List WalRecord)) → Option (Result (List WalRecord))
collect (err e) rest = some (ok [])
collect fault rest = some fault
collect (ok r) rest = prepend r rest

-- The `while (true)` of `recover` over one file: any error ends it. `none` means that the fuel ran out.
unfoldable pub read_all : ℕ → Read → ℕ → Option (Result (List WalRecord))
read_all zero read offset = none
read_all (suc fuel) read offset =
    let rest = read_all fuel read (next read offset).1 in collect (next read offset).0 rest
