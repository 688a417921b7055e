-- ===== src/Wal/Record/RoundTrip.antt =====
-- Reading a serialized record back.
use enigma.Prelude.{
  ℕ, ◌+◌, ◌-◌, ◌^◌, ◌≤◌, ◌<◌, ◌≡◌, refl, ap, ◌∙◌, subst, arith, List, [], ◌∷◌, ◌++◌, length, take,
  drop, length-append, take-length-append, some, suc,
}
use enigma.Error.{ok}
use enigma.Encoding.{decode_uint8, decode_uint32, decode_uint64, decode_loop, u8, Buffer}
use enigma.Encoding.Write.{be_bytes}
use enigma.Encoding.RoundTrip.{decode_loop-fits}
use enigma.Crc32.{compute_crc_32}
use enigma.Wal.Record.{WalRecord, serialize_wal_record, deserialize_wal_record}
use enigma.Wal.Record.Layout.{body, length-body, take-length, serialize_wal_record-layout}

-- What the format can hold: a byte, two uint64s, and a body whose length fits a uint32.
pub record IsStorable (r : WalRecord) : Type 0 where
  pub op_type : r.op_type < 2 ^ 8
  pub timestamp : r.timestamp < 2 ^ 64
  pub sequence : r.sequence < 2 ^ 64
  pub size : 25 + length r.key + length r.value < 2 ^ 32

-- A header whose length and checksum fit the buffer.
pub record HasHeader (buffer : Buffer) (body_length : ℕ) : Type 0 where
  pub enough : 33 ≤ length buffer
  pub covered : body_length ≤ length buffer - 8
  pub length_field : decode_uint32 buffer 0 ≡ some body_length
  pub checksum_field :
      decode_uint32 buffer 4 ≡ some (compute_crc_32 (take body_length (drop 8 buffer)))

-- The fixed fields of a body.
pub record HasFields (buffer : Buffer) (op_type timestamp sequence key_len : ℕ) : Type 0 where
  pub op : decode_uint8 buffer 8 ≡ some op_type
  pub time : decode_uint64 buffer 9 ≡ some timestamp
  pub seq : decode_uint64 buffer 17 ≡ some sequence
  pub keys : decode_uint32 buffer 25 ≡ some key_len

deserialize_fields :
    (buffer : Buffer) (body_length op_type timestamp sequence key_len value_len : ℕ)
    → HasHeader buffer body_length
    → HasFields buffer op_type timestamp sequence key_len
    → decode_uint32 buffer (29 + key_len) ≡ some value_len
    → 29 + key_len + 4 + value_len ≤ length buffer
    → deserialize_wal_record buffer
      ≡ ok (record {
        op_type = op_type;
        timestamp = timestamp;
        sequence = sequence;
        key = take key_len (drop 29 buffer);
        value = take value_len (drop (29 + key_len + 4) buffer);
      })
unfolding deserialize_wal_record
deserialize_fields buffer body_length op_type timestamp sequence key_len value_len h f v fits =
    ground arith

pub drop-append_add : (xs ys : List ℕ) (n : ℕ) → drop (length xs + n) (xs ++ ys) ≡ drop n ys
drop-append_add [] ys n = ap (λ k. drop k ys) (omega arith)
drop-append_add (x ∷ xs) ys n =
    let e : suc (length xs) + n ≡ suc (length xs + n) = omega arith in
    rw e (drop-append_add xs ys n)

-- The layout once more, as a function of the fields.
abbrev fields : ℕ → ℕ → ℕ → ℕ → ℕ → List ℕ → List ℕ → List ℕ
fields l c op ts sq key value =
    be_bytes 4 l
    ++ (be_bytes 4 c
        ++ ((op ∷ [])
            ++ (be_bytes 8 ts
                ++ (be_bytes 8 sq
                    ++ (be_bytes 4 (length key)
                        ++ (key ++ (be_bytes 4 (length value) ++ value)))))))

-- The bytes up to the end of the key.
abbrev front : ℕ → ℕ → ℕ → ℕ → ℕ → List ℕ → List ℕ
front l c op ts sq key =
    be_bytes 4 l
    ++ (be_bytes 4 c
        ++ ((op ∷ []) ++ (be_bytes 8 ts ++ (be_bytes 8 sq ++ (be_bytes 4 (length key) ++ key)))))

module _ (l c op ts sq : ℕ) (key value : List ℕ) where
  fields-HasFields :
      ts < 2 ^ 64
      → sq < 2 ^ 64
      → length key < 2 ^ 32
      → HasFields (fields l c op ts sq key value) op ts sq (length key)
  unfolding be_bytes decode_uint8 decode_uint64 decode_uint32
  fields-HasFields ht hs hk = record {
    op = refl;
    time =
        decode_loop-fits 8 ts (be_bytes 4 l ++ (be_bytes 4 c ++ (op ∷ [])))
          (be_bytes 8 sq
            ++ (be_bytes 4 (length key) ++ (key ++ (be_bytes 4 (length value) ++ value))))
          ht;
    seq =
        decode_loop-fits 8 sq (be_bytes 4 l ++ (be_bytes 4 c ++ (op ∷ be_bytes 8 ts)))
          (be_bytes 4 (length key) ++ (key ++ (be_bytes 4 (length value) ++ value))) hs;
    keys =
        decode_loop-fits 4 (length key)
          (be_bytes 4 l ++ (be_bytes 4 c ++ (op ∷ (be_bytes 8 ts ++ be_bytes 8 sq))))
          (key ++ (be_bytes 4 (length value) ++ value)) hk;
  }

  length-front : length (front l c op ts sq key) ≡ 29 + length key
  unfolding be_bytes
  length-front = omega arith

  fields-value_len :
      length value < 2 ^ 32
      → decode_uint32 (fields l c op ts sq key value) (29 + length key) ≡ some (length value)
  unfolding be_bytes decode_uint32
  fields-value_len hv =
      subst (λ n. decode_loop 4 0 (fields l c op ts sq key value) n ≡ some (length value))
        length-front (decode_loop-fits 4 (length value) (front l c op ts sq key) value hv)

  fields-value :
      take (length value) (drop (29 + length key + 4) (fields l c op ts sq key value)) ≡ value
  unfolding be_bytes
  fields-value =
      subst (λ n. take (length value) (drop (n + 4) (fields l c op ts sq key value)) ≡ value)
        length-front
        (rw (drop-append_add (front l c op ts sq key) (be_bytes 4 (length value) ++ value) 4)
          (take-length value))

  fields-key : take (length key) (drop 29 (fields l c op ts sq key value)) ≡ key
  unfolding be_bytes
  fields-key = take-length-append key (be_bytes 4 (length value) ++ value)

  length-fields : length (fields l c op ts sq key value) ≡ 33 + length key + length value
  unfolding be_bytes
  length-fields = omega (arith, length-append {0})

sealed : WalRecord → List ℕ
sealed r = be_bytes 4 (length (body r)) ++ (be_bytes 4 (compute_crc_32 (body r)) ++ body r)

crc_fits : (bytes : List ℕ) → compute_crc_32 bytes < 2 ^ 32
unfolding compute_crc_32
crc_fits bytes = omega arith

sealed-HasHeader : (r : WalRecord) → IsStorable r → HasHeader (sealed r) (length (body r))
unfolding be_bytes decode_uint32 sealed
sealed-HasHeader r s =
    let b = body r in
    let c = compute_crc_32 b in
    let n = length-body r in
    record {
      enough = omega (arith, n);
      covered = omega arith;
      length_field =
          decode_loop-fits 4 (length b) [] (be_bytes 4 c ++ b) (omega (arith, n, s.size));
      checksum_field =
          rw (take-length b) (decode_loop-fits 4 c (be_bytes 4 (length b)) b (crc_fits b));
    }

-- Any record that the format can hold is read back as it was from its serialized bytes.
pub deserialize_wal_record-serialize_wal_record :
    (r : WalRecord) → IsStorable r → deserialize_wal_record (serialize_wal_record r) ≡ ok r
unfolding sealed
deserialize_wal_record-serialize_wal_record r s =
    let b = body r in
    let l = length b in
    let c = compute_crc_32 b in
    let op : u8 r.op_type ≡ r.op_type = omega (arith, s.op_type) in
    let k = fields-key l c (u8 r.op_type) r.timestamp r.sequence r.key r.value in
    let v = fields-value l c (u8 r.op_type) r.timestamp r.sequence r.key r.value in
    let n = length-fields l c (u8 r.op_type) r.timestamp r.sequence r.key r.value in
    let size = s.size in
    rw (serialize_wal_record-layout r) (
      deserialize_fields (sealed r) l (u8 r.op_type) r.timestamp r.sequence (length r.key)
        (length r.value) (sealed-HasHeader r s)
        (fields-HasFields l c (u8 r.op_type) r.timestamp r.sequence r.key r.value s.timestamp
          s.sequence (omega arith))
        (fields-value_len l c (u8 r.op_type) r.timestamp r.sequence r.key r.value (omega arith))
        (omega arith)
      ∙ rw (k, v, op))
