-- ===== src/Sstable/Block.antt =====
-- The entry at an offset of a data block, as `SSTableReader::get` and `SSTableIterator::next` decode it
-- (src/storage/dazzle_db/sstable): key length, key, value length, value, tombstone flag and sequence.
pub mod Entries
use enigma.Prelude.{ℕ, ◌+◌, Bool, true, false, String, List, leb, ◌==◌, if◌then◌else◌}
use enigma.Error.{Result, Error, ok, err, fault, error, bad_file, guard, in_range, ◌>>=◌, ◌>>◌}
use enigma.Storage.{Key, InternalValue}
use enigma.Encoding.{decode_uint8, decode_uint32, decode_uint64}
use enigma.Sstable.{slice}

-- The messages of the two methods differ.
pub record Messages : Type 0 where
  pub key_length : String
  pub key : String
  pub value_length : String
  pub value : String

abbrev pub get_messages : Messages
get_messages = record {
  key_length = "out of range read for key len";
  key = "out of range read for key";
  value_length = "out of range read for value len";
  value = "out of range read for value";
}

abbrev pub next_messages : Messages
next_messages = record {
  key_length = "out of range read for key length";
  key = "out of range read for key";
  value_length = "out of range read for value length";
  value = "out of range read for value";
}

abbrev pub bad : String → Error
bad message = error bad_file message

-- The key, where the value begins, and the value's length.
unfoldable pub read_head : Messages → List ℕ → ℕ → ℕ → Result (Key × ℕ × ℕ)
read_head m block size offset = do
  guard (leb (offset + 4) size) (bad m.key_length)
  key_len ← in_range (decode_uint32 block offset)
  guard (leb (offset + 4 + key_len) size) (bad m.key)
  key ← in_range (slice block (offset + 4) key_len)
  guard (leb (offset + 4 + key_len + 4) size) (bad m.value_length)
  value_len ← in_range (decode_uint32 block (offset + 4 + key_len))
  guard (leb (offset + 4 + key_len + 4 + value_len) size) (bad m.value)
  ok (key, offset + 4 + key_len + 4, value_len)

-- The value that begins at `offset`, with its flag and its sequence number.
unfoldable pub read_tail : List ℕ → ℕ → ℕ → ℕ → Result InternalValue
read_tail block size offset value_len = do
  bytes ← in_range (slice block offset value_len)
  guard (leb (offset + value_len + 1) size) (bad "out of range read for tombstone")
  tombstone ← in_range (decode_uint8 block (offset + value_len))
  guard (leb (offset + value_len + 1 + 8) size) (bad "out of range read for sequence")
  sequence ← in_range (decode_uint64 block (offset + value_len + 1))
  ok (record {
    bytes = bytes;
    is_tombstone = if tombstone == 0 then false else true;
    sequence = sequence;
  })
