-- ===== src/Wal/Record/Layout.antt =====
-- The layout that `serialize_wal_record` produces: length, checksum, and the body that both cover.
use enigma.Prelude.{
  ℕ, ◌+◌, ◌-◌, ◌≡◌, refl, ap, ◌∙◌, arith, List, [], ◌∷◌, ◌++◌, length, take, length-append,
  append_assoc, append-nil, take-length-append,
}
use enigma.Encoding.{encode_uint32, encode_uint64, encode_loop, u8}
use enigma.Encoding.Write.{
  be_bytes, length-be_bytes, Filled, fresh-Filled, write_bytes-Filled, encode_loop-Filled,
  encode_uint8-Filled,
}
use enigma.Encoding.RoundTrip.{encode_loop-splice}
use enigma.Crc32.{compute_crc_32}
use enigma.Wal.Record.{WalRecord, get_record_size, serialize_body, serialize_wal_record}

-- The body: operation, timestamp, sequence number, and key and value behind their lengths.
abbrev pub body : WalRecord → List ℕ
body r =
    (u8 r.op_type ∷ [])
    ++ (be_bytes 8 r.timestamp
        ++ (be_bytes 8 r.sequence
            ++ (be_bytes 4 (length r.key) ++ (r.key ++ (be_bytes 4 (length r.value) ++ r.value)))))

-- The bytes that the code has written when it comes to the header, in the order of writing.
abbrev unsealed : WalRecord → List ℕ
unsealed r =
    (((((((([] ++ be_bytes 4 0) ++ be_bytes 4 0) ++ (u8 r.op_type ∷ [])) ++ be_bytes 8 r.timestamp)
            ++ be_bytes 8 r.sequence)
          ++ be_bytes 4 (length r.key))
        ++ r.key)
      ++ be_bytes 4 (length r.value))
    ++ r.value

pub length-body : (r : WalRecord) → length (body r) ≡ 25 + length r.key + length r.value
length-body r = omega (
  arith,
  length-be_bytes 8 r.timestamp,
  length-be_bytes 8 r.sequence,
  length-be_bytes 4 (length r.key),
  length-be_bytes 4 (length r.value),
  length-append {0},
)

serialize_body-Filled : (r : WalRecord) → Filled (serialize_body r) (unsealed r) 0
unfolding serialize_body get_record_size encode_uint32 encode_uint64
serialize_body-Filled r =
    let k = length r.key in
    let v = length r.value in
    let f0 = fresh-Filled (get_record_size r) in
    let f1 = encode_loop-Filled 4 0 _ _ _ _ (29 + k + v) (omega arith) f0 in
    let f2 = encode_loop-Filled 4 0 _ _ _ _ (25 + k + v) (omega arith) f1 in
    let f3 = encode_uint8-Filled r.op_type _ _ _ _ (24 + k + v) (omega arith) f2 in
    let f4 = encode_loop-Filled 8 r.timestamp _ _ _ _ (16 + k + v) (omega arith) f3 in
    let f5 = encode_loop-Filled 8 r.sequence _ _ _ _ (8 + k + v) (omega arith) f4 in
    let f6 = encode_loop-Filled 4 k _ _ _ _ (4 + k + v) (omega arith) f5 in
    let f7 = write_bytes-Filled r.key _ _ _ _ (4 + v) (omega arith) f6 in
    let f8 = encode_loop-Filled 4 v _ _ _ _ v (omega arith) f7 in
    write_bytes-Filled r.value _ _ _ _ 0 (omega arith) f8

-- The buffer before the header is written: eight zero bytes and the body.
unsealed_buffer : (r : WalRecord) → (serialize_body r).0 ≡ be_bytes 4 0 ++ (be_bytes 4 0 ++ body r)
unsealed_buffer r = (serialize_body-Filled r).contents ∙ simp (append_assoc, append-nil)

unsealed_offset : (r : WalRecord) → (serialize_body r).1 - 8 ≡ length (body r)
unsealed_offset r =
    let e : length (unsealed r) ≡ length (be_bytes 4 0 ++ (be_bytes 4 0 ++ body r)) =
      ap length (simp append_assoc) in
    let n = length-append (be_bytes 4 0) (be_bytes 4 0 ++ body r) in
    let m = length-append (be_bytes 4 0) (body r) in
    omega (arith, (serialize_body-Filled r).offset, e, n, m, length-be_bytes 4 0)

pub take-length : (l : List ℕ) → take (length l) l ≡ l
take-length l = rw append-nil at (take-length-append l [])

seal :
    (l c : ℕ) (rest : List ℕ)
    → encode_loop c 4 (encode_loop l 4 (be_bytes 4 0 ++ (be_bytes 4 0 ++ rest)) 0) 4
      ≡ be_bytes 4 l ++ (be_bytes 4 c ++ rest)
unfolding be_bytes
seal l c rest =
    ap (λ b. encode_loop c 4 b 4)
      (encode_loop-splice 4 l [] (be_bytes 4 0) (be_bytes 4 0 ++ rest) refl)
    ∙ encode_loop-splice 4 c (be_bytes 4 l) (be_bytes 4 0) rest refl

-- A serialized record is the length of its body, the checksum of its body, and the body, each
-- integer in big-endian order.
pub serialize_wal_record-layout :
    (r : WalRecord)
    → serialize_wal_record r
      ≡ be_bytes 4 (length (body r)) ++ (be_bytes 4 (compute_crc_32 (body r)) ++ body r)
unfolding serialize_wal_record encode_uint32 be_bytes
serialize_wal_record-layout r =
    rw (unsealed_offset r, unsealed_buffer r, take-length (body r))
      (seal (length (body r)) (compute_crc_32 (body r)) (body r))
