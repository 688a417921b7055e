-- ===== src/Sstable/Block/Entries.antt =====
-- The bytes of a data block, and that the decoders read its entries back.
use enigma.Prelude.{
  ℕ, ◌+◌, ◌^◌, ◌≤◌, ◌<◌, ◌≡◌, refl, ◌∙◌, ap, subst, arith, Bool, true, false, some, List, [], ◌∷◌,
  ◌++◌, length, leb, length-append, if◌then◌else◌, ◌==◌,
}
use enigma.Error.{ok}
use enigma.Storage.{Key, InternalValue}
use enigma.SortedMap.{SortedMap}
use enigma.Encoding.{Buffer}
use enigma.Encoding.Write.{be_bytes, length-be_bytes}
use enigma.Encoding.Segment.{
  At, At-first, At-second, At-end, At-uint8, At-uint32, At-uint64, At-take,
}
use enigma.Sstable.{slice}
use enigma.Sstable.Writer.{as_byte, required_size}
use enigma.Sstable.Block.{Messages, read_head, read_tail}

-- An entry, from its value on, and as a whole.
abbrev pub value_bytes : InternalValue → List ℕ
value_bytes v = v.bytes ++ ((as_byte v.is_tombstone ∷ []) ++ be_bytes 8 v.sequence)

abbrev pub entry_bytes : Key → InternalValue → List ℕ
entry_bytes key v =
    be_bytes 4 (length key) ++ (key ++ (be_bytes 4 (length v.bytes) ++ value_bytes v))

unfoldable pub entries_bytes : SortedMap Key InternalValue → List ℕ
entries_bytes [] = []
entries_bytes ((key, v) ∷ m) = entry_bytes key v ++ entries_bytes m

-- The lengths and the sequence number fit their fields.
pub record IsStorable (key : Key) (v : InternalValue) : Type 0 where
  pub key_length : length key < 2 ^ 32
  pub value_length : length v.bytes < 2 ^ 32
  pub sequence : v.sequence < 2 ^ 64

pub length-entry_bytes :
    (key : Key) (v : InternalValue) → length (entry_bytes key v) ≡ required_size key v
length-entry_bytes key v = omega (
  arith,
  length-be_bytes 4 (length key),
  length-be_bytes 4 (length v.bytes),
  length-be_bytes 8 v.sequence,
  length-append {0},
)

pub At-slice :
    (buffer : Buffer) (offset : ℕ) (x : List ℕ)
    → At buffer offset x
    → slice buffer offset (length x) ≡ some x
At-slice buffer offset x a =
    let fits : leb (offset + length x) (length buffer) ≡ true =
      ground (arith, At-end buffer offset x a) in
    rw fits (ap some (At-take buffer offset x a))

-- Where an entry stands at an offset, its value stands behind the key.
pub At-value :
    (block : Buffer) (offset : ℕ) (key : Key) (v : InternalValue)
    → At block offset (entry_bytes key v)
    → At block (offset + 4 + length key + 4) (value_bytes v)
At-value block offset key v a =
    let a1 = At-second block offset (be_bytes 4 (length key)) _ a in
    let a2 = At-second block _ key _ a1 in
    let a3 = At-second block _ (be_bytes 4 (length v.bytes)) _ a2 in
    subst (λ o. At block o (value_bytes v))
      (omega (arith, length-be_bytes 4 (length key), length-be_bytes 4 (length v.bytes))) a3

-- The steps of `read_head`.
read_head-steps :
    (m : Messages) (block : Buffer) (size offset key_len value_len : ℕ) {key : Key}
    → leb (offset + 4) size ≡ true
    → enigma.Encoding.decode_uint32 block offset ≡ some key_len
    → leb (offset + 4 + key_len) size ≡ true
    → slice block (offset + 4) key_len ≡ some key
    → leb (offset + 4 + key_len + 4) size ≡ true
    → enigma.Encoding.decode_uint32 block (offset + 4 + key_len) ≡ some value_len
    → leb (offset + 4 + key_len + 4 + value_len) size ≡ true
    → read_head m block size offset ≡ ok (key, offset + 4 + key_len + 4, value_len)
read_head-steps m block size offset key_len value_len e1 e2 e3 e4 e5 e6 e7 =
    unfold read_head in ground arith

pub le→leb : (a b : ℕ) → a ≤ b → leb a b ≡ true
le→leb a b h = ground arith

pub read_head-entry :
    (m : Messages) (block : Buffer) (offset : ℕ) (key : Key) (v : InternalValue)
    → IsStorable key v
    → At block offset (entry_bytes key v)
    → read_head m block (length block) offset
      ≡ ok (key, offset + 4 + length key + 4, length v.bytes)
read_head-entry m block offset key v s a =
    let n4 : (x : ℕ) → length (be_bytes 4 x) ≡ 4 = length-be_bytes 4 in
    let a1 = At-second block offset (be_bytes 4 (length key)) _ a in
    let a2 = At-second block _ key _ a1 in
    let at_key : At block (offset + 4) key =
      subst (λ o. At block o key) (omega (arith, n4 (length key))) (At-first block _ key _ a1) in
    let at_length : At block (offset + 4 + length key) (be_bytes 4 (length v.bytes)) =
      subst (λ o. At block o (be_bytes 4 (length v.bytes))) (omega (arith, n4 (length key)))
        (At-first block _ (be_bytes 4 (length v.bytes)) _ a2) in
    let at_end = At-end block _ (value_bytes v) (At-value block offset key v a) in
    let n = length-append v.bytes ((as_byte v.is_tombstone ∷ []) ++ be_bytes 8 v.sequence) in
    read_head-steps m block (length block) offset (length key) (length v.bytes)
      (le→leb _ _ (omega (arith, at_end)))
      (At-uint32 (length key) block offset s.key_length
        (At-first block offset (be_bytes 4 (length key)) _ a))
      (le→leb _ _ (omega (arith, at_end))) (At-slice block (offset + 4) key at_key)
      (le→leb _ _ (omega (arith, at_end)))
      (At-uint32 (length v.bytes) block (offset + 4 + length key) s.value_length at_length)
      (le→leb _ _ (omega (arith, at_end, n)))

read_tail-steps :
    (block : Buffer) (size offset value_len tombstone sequence : ℕ) {bytes : List ℕ}
    → slice block offset value_len ≡ some bytes
    → leb (offset + value_len + 1) size ≡ true
    → enigma.Encoding.decode_uint8 block (offset + value_len) ≡ some tombstone
    → leb (offset + value_len + 1 + 8) size ≡ true
    → enigma.Encoding.decode_uint64 block (offset + value_len + 1) ≡ some sequence
    → read_tail block size offset value_len
      ≡ ok (record {
        bytes = bytes;
        is_tombstone = if tombstone == 0 then false else true;
        sequence = sequence;
      })
read_tail-steps block size offset value_len tombstone sequence e1 e2 e3 e4 e5 =
    unfold read_tail in ground arith

flag_back : (b : Bool) → (if as_byte b == 0 then false else true) ≡ b
flag_back true = refl
flag_back false = refl

pub read_tail-entry :
    (block : Buffer) (offset : ℕ) (key : Key) (v : InternalValue)
    → IsStorable key v
    → At block offset (value_bytes v)
    → read_tail block (length block) offset (length v.bytes) ≡ ok v
read_tail-entry block offset key v s a =
    let flag = as_byte v.is_tombstone ∷ [] in
    let a1 = At-second block offset v.bytes _ a in
    let a2 = At-second block _ flag _ a1 in
    let at_end = At-end block _ (be_bytes 8 v.sequence) a2 in
    let n = length-be_bytes 8 v.sequence in
    read_tail-steps block (length block) offset (length v.bytes) (as_byte v.is_tombstone) v.sequence
      (At-slice block offset v.bytes (At-first block offset v.bytes _ a))
      (le→leb _ _ (omega (arith, at_end)))
      (At-uint8 (as_byte v.is_tombstone) block (offset + length v.bytes)
        (At-first block _ flag _ a1))
      (le→leb _ _ (omega (arith, at_end, n)))
      (At-uint64 v.sequence block (offset + length v.bytes + 1) s.sequence a2)
    ∙ ap (λ b. ok (record { bytes = v.bytes; is_tombstone = b; sequence = v.sequence }))
        (flag_back v.is_tombstone)
