-- ===== src/Wal/Record.antt =====
-- src/storage/dazzle_db/wal/wal_record.cpp: the bytes of one log record.
pub mod Layout
pub mod RoundTrip
pub mod Faults
mod Tests
use enigma.Prelude.{ℕ, ◌+◌, ◌-◌, List, [], ◌∷◌, length, take, drop, replicate, leb, ◌==◌, Bool}
use enigma.Error.{
  Result, ok, err, fault, ◌>>=◌, ◌>>◌, guard, in_range, error, read_out_of_range, bad_config,
}
use enigma.Storage.{Key}
use enigma.Crc32.{compute_crc_32}
use enigma.Encoding.{
  encode_uint8, encode_uint32, encode_uint64, decode_uint8, decode_uint32, decode_uint64,
  write_bytes, u8,
}

-- `enum class WalOpType : uint8_t`. The deserializer casts any byte to it, so a value is a byte.
abbrev pub WalOpType : Type 0
WalOpType = ℕ

abbrev pub put_row : WalOpType
put_row = 0x01

abbrev pub delete_row : WalOpType
delete_row = 0x02

pub record WalRecord : Type 0 where
  pub op_type : WalOpType
  pub timestamp : ℕ
  pub sequence : ℕ
  pub key : Key
  pub value : List ℕ

unfoldable pub get_record_size : WalRecord → ℕ
get_record_size r = 4 + 4 + 1 + 8 + 8 + (length r.key + 4) + (length r.value + 4)

-- Everything but the header's two fields, which stay zero for now: the buffer and the offset.
unfoldable pub serialize_body : WalRecord → List ℕ × ℕ
unfolding get_record_size encode_uint8 encode_uint32 encode_uint64 write_bytes
serialize_body r =
    let out = replicate (get_record_size r) 0 in
    let (b1, o1) = encode_uint32 0 out 0 in
    let (b2, o2) = encode_uint32 0 b1 o1 in
    let (b3, o3) = encode_uint8 r.op_type b2 o2 in
    let (b4, o4) = encode_uint64 r.timestamp b3 o3 in
    let (b5, o5) = encode_uint64 r.sequence b4 o4 in
    let (b6, o6) = encode_uint32 (length r.key) b5 o5 in
    let b7 = write_bytes r.key b6 o6 in
    let o7 = o6 + length r.key in
    let (b8, o8) = encode_uint32 (length r.value) b7 o7 in
    let b9 = write_bytes r.value b8 o8 in (b9, o8 + length r.value)

unfoldable pub serialize_wal_record : WalRecord → List ℕ
unfolding serialize_body
serialize_wal_record r =
    let (buffer, offset) = serialize_body r in
    let body_length = offset - 8 in
    let checksum = compute_crc_32 (take body_length (drop 8 buffer)) in
    (encode_uint32 checksum (encode_uint32 body_length buffer 0).0 4).0

abbrev pub min_record_size : ℕ
min_record_size = 33

-- `length` is the length of the buffer. The sums of offsets and lengths stay far below 2^64.
unfoldable pub deserialize_wal_record : List ℕ → Result WalRecord
deserialize_wal_record buffer = do
  guard (leb min_record_size (length buffer))
      (error read_out_of_range "buffer too small for WAL record")
  body_length ← in_range (decode_uint32 buffer 0)
  checksum ← in_range (decode_uint32 buffer 4)
  guard (leb body_length (length buffer - 8)) (error read_out_of_range "out of range")
  guard (checksum == compute_crc_32 (take body_length (drop 8 buffer)))
      (error bad_config "checksum mismatch corrupted data found")
  op_type ← in_range (decode_uint8 buffer 8)
  timestamp ← in_range (decode_uint64 buffer 9)
  sequence ← in_range (decode_uint64 buffer 17)
  key_len ← in_range (decode_uint32 buffer 25)
  guard (leb (29 + key_len) (length buffer)) (error read_out_of_range "key out of range")
  value_len ← in_range (decode_uint32 buffer (29 + key_len))
  let offset = 29 + key_len + 4
  guard (leb (offset + value_len) (length buffer)) (error read_out_of_range "value out of range")
  ok (record {
    op_type = op_type;
    timestamp = timestamp;
    sequence = sequence;
    key = take key_len (drop 29 buffer);
    value = take value_len (drop offset buffer);
  })
