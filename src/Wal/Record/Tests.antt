-- ===== src/Wal/Record/Tests.antt =====
-- Runs of the record serializer, and its theorems at concrete inputs.
use enigma.Prelude.{ℕ, ◌≡◌, refl, arith, List, [], ◌∷◌, ◌++◌, take, drop, replicate}
use enigma.Error.{ok, err, fault, error, bad_config}
use enigma.Encoding.{decode_uint8, decode_uint32, decode_uint64}
use enigma.Encoding.Write.{be_bytes}
use enigma.Crc32.{compute_crc_32}
use enigma.Wal.Record.{WalRecord, put_row, serialize_wal_record, deserialize_wal_record}
use enigma.Wal.Record.Layout.{body, serialize_wal_record-layout}
use enigma.Wal.Record.RoundTrip.{
  IsStorable, HasHeader, HasFields, deserialize_wal_record-serialize_wal_record,
}
use enigma.Wal.Record.Faults.{deserialize_wal_record-overread}

abbrev pub one_put : WalRecord
one_put = record {
  op_type = put_row;
  timestamp = 5;
  sequence = 1;
  key = 7 ∷ 8 ∷ [];
  value = 9 ∷ [];
}

pub one_put-IsStorable : IsStorable one_put
one_put-IsStorable = omega arith

serialize_wal_record-layout_example :
    serialize_wal_record one_put
    ≡ be_bytes 4 28 ++ (be_bytes 4 (compute_crc_32 (body one_put)) ++ body one_put)
unfolding be_bytes
serialize_wal_record-layout_example = serialize_wal_record-layout one_put

deserialize_wal_record-serialize_wal_record_example :
    deserialize_wal_record (serialize_wal_record one_put) ≡ ok one_put
deserialize_wal_record-serialize_wal_record_example =
    deserialize_wal_record-serialize_wal_record one_put one_put-IsStorable

-- One flipped byte in the key.
damaged :
    deserialize_wal_record
      (take 29 (serialize_wal_record one_put) ++ (6 ∷ drop 30 (serialize_wal_record one_put)))
    ≡ err (error bad_config "checksum mismatch corrupted data found")
unfolding serialize_wal_record deserialize_wal_record compute_crc_32 decode_uint32
damaged = refl

-- A record of zeros: its length is 0, and 0 is the checksum of no bytes.
zeros_accepted :
    deserialize_wal_record (replicate 33 0)
    ≡ ok (record { op_type = 0; timestamp = 0; sequence = 0; key = []; value = [] })
unfolding deserialize_wal_record compute_crc_32 decode_uint32 decode_uint64 decode_uint8
zeros_accepted = refl

-- A body of 25 bytes whose key claims the last four.
abbrev greedy_body : List ℕ
greedy_body = put_row ∷ (replicate 19 0 ++ (4 ∷ 6 ∷ 6 ∷ 6 ∷ 6 ∷ []))

abbrev greedy : List ℕ
greedy = 0 ∷ 0 ∷ 0 ∷ 25 ∷ (be_bytes 4 (compute_crc_32 greedy_body) ++ greedy_body)

greedy-HasHeader : HasHeader greedy 25
unfolding be_bytes decode_uint32 compute_crc_32
greedy-HasHeader = record {
  enough = omega arith;
  covered = omega arith;
  length_field = refl;
  checksum_field = refl;
}

greedy-HasFields : HasFields greedy put_row 0 0 4
unfolding be_bytes decode_uint8 decode_uint32 decode_uint64
greedy-HasFields = record { op = refl; time = refl; seq = refl; keys = refl }

deserialize_wal_record-overread_example : deserialize_wal_record greedy ≡ fault
unfolding be_bytes
deserialize_wal_record-overread_example =
    deserialize_wal_record-overread greedy 25 put_row 0 0 4 greedy-HasHeader greedy-HasFields
      (omega arith) (omega arith)
