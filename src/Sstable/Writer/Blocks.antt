-- ===== src/Sstable/Writer/Blocks.antt =====
-- What `SSTableWriter::add` and `flush_block` put into the file and into the index.
use enigma.Prelude.{
  ℕ, ◌+◌, ◌≡◌, refl, sym, ◌∙◌, ap, arith, Bool, true, false, List, [], ◌∷◌, ◌++◌, length, replicate,
  length-append, append_assoc, append-nil,
}
use enigma.Storage.{Key, InternalValue, key_ord}
use enigma.Encoding.{encode_uint32, encode_uint64, encode_bytes, u8}
use enigma.Encoding.Write.{
  be_bytes, Filled, write_bytes-Filled, encode_loop-Filled, encode_uint8-Filled,
}
use enigma.Sstable.{IndexEntry}
use enigma.Sstable.Block.Entries.{entry_bytes, entries_bytes}
use enigma.Sstable.Writer.{required_size, as_byte, write_entry}

abbrev pub Entries : Type 0
Entries = List (Key × InternalValue)

small_byte : (b : Bool) → u8 (as_byte b) ≡ as_byte b
small_byte true = refl
small_byte false = refl

-- The bytes that the code has written, in the order of writing.
abbrev in_order : Key → InternalValue → List ℕ → List ℕ
in_order key v buffer =
    (((((buffer ++ be_bytes 4 (length key)) ++ key) ++ be_bytes 4 (length v.bytes)) ++ v.bytes)
      ++ (u8 (as_byte v.is_tombstone) ∷ []))
    ++ be_bytes 8 v.sequence

write_entry-Filled :
    (key : Key) (v : InternalValue) (buffer : List ℕ)
    → write_entry key v buffer ≡ in_order key v buffer ++ replicate 0 0
unfolding write_entry encode_uint32 encode_uint64 encode_bytes
write_entry-Filled key v buffer =
    let k = length key in
    let n = length v.bytes in
    let f0 : Filled (buffer ++ replicate (required_size key v) 0, length buffer) buffer
        (required_size key v) =
      record { contents = refl; offset = refl } in
    let f1 = encode_loop-Filled 4 k _ _ _ _ (13 + k + n) (omega arith) f0 in
    let f2 = write_bytes-Filled key _ _ _ _ (13 + n) (omega arith) f1 in
    let f3 = encode_loop-Filled 4 n _ _ _ _ (9 + n) (omega arith) f2 in
    let f4 = write_bytes-Filled v.bytes _ _ _ _ 9 (omega arith) f3 in
    let f5 = encode_uint8-Filled (as_byte v.is_tombstone) _ _ _ _ 8 (omega arith) f4 in
    (encode_loop-Filled 8 v.sequence _ _ _ _ 0 (omega arith) f5).contents

-- `add` appends the bytes of the entry to the block.
pub write_entry-layout :
    (key : Key) (v : InternalValue) (buffer : List ℕ)
    → write_entry key v buffer ≡ buffer ++ entry_bytes key v
write_entry-layout key v buffer =
    write_entry-Filled key v buffer
    ∙ rw (small_byte v.is_tombstone) (simp (append_assoc, append-nil))

pub entries_bytes-append :
    (m l : Entries) → entries_bytes (m ++ l) ≡ entries_bytes m ++ entries_bytes l
unfolding entries_bytes
entries_bytes-append [] l = refl
entries_bytes-append ((k, v) ∷ m) l =
    ap (λ x. entry_bytes k v ++ x) (entries_bytes-append m l)
    ∙ sym (append_assoc (entry_bytes k v) (entries_bytes m) (entries_bytes l))

-- The key that the index has for a block; that of a block without entries is empty.
abbrev pub first_key : Entries → Key
first_key [] = []
first_key ((k, v) ∷ m) = k

-- The data of the blocks.
unfoldable pub blocks_bytes : List Entries → List ℕ
blocks_bytes [] = []
blocks_bytes (b ∷ bs) = entries_bytes b ++ blocks_bytes bs

-- The index of blocks of which the first begins at the offset.
unfoldable pub index_of : ℕ → List Entries → List IndexEntry
index_of offset [] = []
index_of offset (b ∷ bs) =
    (record {
      first_key = first_key b;
      block_offset = offset;
      block_size = length (entries_bytes b);
    })
    ∷ index_of (offset + length (entries_bytes b)) bs

unfoldable pub all_entries : List Entries → Entries
all_entries [] = []
all_entries (b ∷ bs) = b ++ all_entries bs

pub blocks_bytes-last :
    (bs : List Entries) (b : Entries)
    → blocks_bytes (bs ++ (b ∷ [])) ≡ blocks_bytes bs ++ entries_bytes b
unfolding blocks_bytes
blocks_bytes-last [] b = append-nil (entries_bytes b)
blocks_bytes-last (a ∷ bs) b =
    ap (λ x. entries_bytes a ++ x) (blocks_bytes-last bs b)
    ∙ sym (append_assoc (entries_bytes a) (blocks_bytes bs) (entries_bytes b))

pub all_entries-last :
    (bs : List Entries) (b : Entries) → all_entries (bs ++ (b ∷ [])) ≡ all_entries bs ++ b
unfolding all_entries
all_entries-last [] b = append-nil b
all_entries-last (a ∷ bs) b =
    ap (λ x. a ++ x) (all_entries-last bs b) ∙ sym (append_assoc a (all_entries bs) b)

pub index_of-last :
    (offset : ℕ) (bs : List Entries) (b : Entries)
    → index_of offset (bs ++ (b ∷ []))
      ≡ index_of offset bs
        ++ (record {
          first_key = first_key b;
          block_offset = offset + length (blocks_bytes bs);
          block_size = length (entries_bytes b);
        }
            ∷ [])
unfolding index_of blocks_bytes
index_of-last offset [] b = let e : offset + 0 ≡ offset = omega arith in rw e
index_of-last offset (a ∷ bs) b =
    let e : offset + length (entries_bytes a) + length (blocks_bytes bs)
        ≡ offset + length (entries_bytes a ++ blocks_bytes bs) =
      omega (arith, length-append (entries_bytes a) (blocks_bytes bs)) in
    rw (index_of-last (offset + length (entries_bytes a)) bs b, e)
