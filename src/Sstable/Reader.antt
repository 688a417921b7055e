-- ===== src/Sstable/Reader.antt =====
-- src/storage/dazzle_db/sstable/sstable_reader.cpp. The file is reached through `IOEngine::read` and
-- `file_size`, which are parameters. The estimate of the memory in use is left out.
pub mod Scan
pub mod Index
use enigma.Prelude.{
  ℕ, zero, suc, ◌+◌, ◌-◌, ◌%◌, ◌^◌, Bool, true, false, not, Option, none, some, List, [], ◌∷◌, take,
  drop, ltb, leb, ◌==◌, Ordering, if◌then◌else◌,
}
use enigma.Error.{
  Result, Error, ok, err, fault, error, bad_config, bad_magic, unexpected_err, read_out_of_range,
  guard, in_range, ◌>>=◌, ◌>>◌,
}
use enigma.Prelude.Ord.{compare_bytes}
use enigma.Storage.{Key, InternalValue}
use enigma.Encoding.{decode_uint8, decode_uint16, decode_uint32, decode_uint64}
use enigma.Crc32.{compute_crc_32}
use enigma.BloomFilter.{BloomFilter, stored_filter, may_contain}
use enigma.Wal.Reader.{Read, overlay}
use enigma.Sstable.{
  IndexEntry, SstFooter, footer_size, magic_bytes_offset, footer_checksum_offset, magic, slice,
}
use enigma.Sstable.Block.{get_messages, read_head, read_tail}

pub record SstReader : Type 0 where
  pub read : Read
  pub index_entries : List IndexEntry
  pub bloom_filter : BloomFilter
  pub footer : SstFooter

-- An open file: what `file_size` and `read` return.
pub record OpenFile : Type 0 where
  pub file_size : Result ℕ
  pub read : Read

-- A zeroed buffer of `count` bytes after a read into it.
abbrev pub read_buffer : Read → ℕ → ℕ → Result (List ℕ)
read_buffer read count offset = read count offset >>= λ bytes. ok (overlay bytes count)

-- `memcmp(...) == 0`
abbrev pub same_bytes : List ℕ → List ℕ → Bool
same_bytes a b = elim (compare_bytes a b) [ Ordering.eq ↦ true | _ ↦ false ]

-- The checks of the footer's 64 bytes, and its fields.
unfoldable pub decode_footer : List ℕ → Result SstFooter
decode_footer buffer = do
  guard (same_bytes (take 8 (drop magic_bytes_offset buffer)) magic)
      (error bad_magic "invalid magic")
  stored_checksum ← in_range (decode_uint32 buffer footer_checksum_offset)
  guard (stored_checksum == compute_crc_32 (take footer_checksum_offset buffer))
      (error bad_config "invalid checksum")
  index_block_offset ← in_range (decode_uint64 buffer 0)
  index_block_size ← in_range (decode_uint32 buffer 8)
  filter_block_offset ← in_range (decode_uint64 buffer 12)
  filter_block_size ← in_range (decode_uint32 buffer 20)
  guard (leb 2 filter_block_size) (error bad_config "invalid filter block size")
  entry_count ← in_range (decode_uint32 buffer 24)
  format_version ← in_range (decode_uint16 buffer 28)
  highest_sequence ← in_range (decode_uint64 buffer 30)
  size_bytes ← in_range (decode_uint64 buffer 38)
  ok (record {
    index_block_offset = index_block_offset;
    index_block_size = index_block_size;
    filter_block_offset = filter_block_offset;
    filter_block_size = filter_block_size;
    entry_count = entry_count;
    format_version = format_version;
    highest_sequence = highest_sequence;
    size_bytes = size_bytes;
  })

-- One round of the loop over the index block: the entry, and the offset past it.
unfoldable pub decode_index_entry : List ℕ → ℕ → ℕ → Result (IndexEntry × ℕ)
decode_index_entry buffer index_block_size offset = do
  guard (leb (offset + 4) index_block_size) (error read_out_of_range "key read out of range")
  key_len ← in_range (decode_uint32 buffer offset)
  guard (leb (offset + 4 + key_len + 8 + 4) index_block_size)
      (error read_out_of_range "index entry out of range")
  first_key ← in_range (slice buffer (offset + 4) key_len)
  block_offset ← in_range (decode_uint64 buffer (offset + 4 + key_len))
  block_size ← in_range (decode_uint32 buffer (offset + 4 + key_len + 8))
  ok (
    (record { first_key = first_key; block_offset = block_offset; block_size = block_size }),
    offset + 4 + key_len + 8 + 4,
  )

-- What follows a round of a loop that may fail.
abbrev pub after_round : {A B : Type 0} → Result A → (A → Option (Result B)) → Option (Result B)
after_round fault more = some fault
after_round (err e) more = some (err e)
after_round (ok a) more = more a

abbrev pub prepend_entry :
    IndexEntry → Option (Result (List IndexEntry × ℕ)) → Option (Result (List IndexEntry × ℕ))
prepend_entry entry none = none
prepend_entry entry (some fault) = some fault
prepend_entry entry (some (err e)) = some (err e)
prepend_entry entry (some (ok (entries, offset))) = some (ok (entry ∷ entries, offset))

-- `while (offset < index_block_size)`: the entries and the offset behind them; `none` means that the
-- fuel ran out.
unfoldable pub decode_index : ℕ → List ℕ → ℕ → ℕ → Option (Result (List IndexEntry × ℕ))
decode_index zero buffer index_block_size offset = none
decode_index (suc fuel) buffer index_block_size offset =
    if ltb offset index_block_size
    then after_round (decode_index_entry buffer index_block_size offset)
        (λ r. prepend_entry r.0 (decode_index fuel buffer index_block_size r.1))
    else some (ok ([], offset))

-- The filter block, from behind the index.
unfoldable pub decode_filter : List ℕ → ℕ → ℕ → Result BloomFilter
decode_filter buffer filter_block_size offset = do
  num_hashes ← in_range (decode_uint8 buffer offset)
  bit_array ← in_range (slice buffer (offset + 1) (filter_block_size - 1))
  ok (stored_filter bit_array num_hashes)

-- `index_block_size + filter_block_size` is a sum of 32 bits.
abbrev pub blocks_size : SstFooter → ℕ
blocks_size f = (f.index_block_size + f.filter_block_size) % 2 ^ 32

-- `create` from the footer on.
abbrev pub load_blocks : ℕ → Read → SstFooter → List ℕ → Option (Result SstReader)
load_blocks fuel read footer buffer =
    after_round_index (decode_index fuel buffer footer.index_block_size 0)
  where
    after_round_index : Option (Result (List IndexEntry × ℕ)) → Option (Result SstReader)
    after_round_index none = none
    after_round_index (some r) = some (do
      (entries, offset) ← r
      filter ← decode_filter buffer footer.filter_block_size offset
      ok (record { read = read; index_entries = entries; bloom_filter = filter; footer = footer }))

-- The footer of a file of the size.
unfoldable pub read_footer : OpenFile → Result SstFooter
read_footer file = do
  file_size ← file.file_size
  guard (leb footer_size file_size) (error bad_config "file too small for SSTable")
  buffer ← read_buffer file.read footer_size (file_size - footer_size)
  decode_footer buffer

-- `SSTableReader::create`, from what `engine.open` returned.
unfoldable pub create : ℕ → Result OpenFile → Option (Result SstReader)
create fuel opened = after_round opened (λ file. after_round (read_footer file) (λ footer.
    after_round (read_buffer file.read (blocks_size footer) footer.index_block_offset)
      (load_blocks fuel file.read footer)))

-- `--upper_bound(...)`: the last entry whose first key is not above the key. The index is sorted,
-- which `std::upper_bound` takes for granted.
unfoldable pub find_block : Key → Option IndexEntry → List IndexEntry → Option IndexEntry
find_block key before [] = before
find_block key before (entry ∷ entries) =
    let rest = find_block key (some entry) entries in
    elim (compare_bytes key entry.first_key) [ Ordering.lt ↦ before | _ ↦ rest ]

-- What the scan does with the entry that it stands at, by how the key compares.
abbrev pub compared :
    Ordering
    → List ℕ
    → ℕ
    → ℕ
    → ℕ
    → (ℕ → Option (Result (Option InternalValue)))
    → Option (Result (Option InternalValue))
compared Ordering.eq block size offset value_len more =
    some (read_tail block size offset value_len >>= λ v. ok (some v))
compared Ordering.lt block size offset value_len more = some (ok none)
compared Ordering.gt block size offset value_len more =
    after_round
      (guard (leb (offset + value_len + 9) size) (error unexpected_err "Truncated entry."))
      (λ u. more (offset + value_len + 9))

-- `while (block_offset < it->block_size)`; `none` means that the fuel ran out.
unfoldable pub scan_block : ℕ → Key → List ℕ → ℕ → ℕ → Option (Result (Option InternalValue))
scan_block zero key block size offset = none
scan_block (suc fuel) key block size offset =
    if ltb offset size
    then after_round (read_head get_messages block size offset)
        (λ h. compared (compare_bytes key h.0) block size h.1 h.2 (scan_block fuel key block size))
    else some (ok none)

abbrev pub scan_candidate :
    ℕ → Read → Key → Option IndexEntry → Option (Result (Option InternalValue))
scan_candidate fuel read key none = some (ok none)
scan_candidate fuel read key (some entry) =
    after_round (read_buffer read entry.block_size entry.block_offset)
      (λ block. scan_block fuel key block entry.block_size 0)

-- `SSTableReader::get`
unfoldable pub get : ℕ → SstReader → Key → Option (Result (Option InternalValue))
get fuel r key = after_round (may_contain r.bloom_filter key) (λ possible.
    if possible
    then scan_candidate fuel r.read key (find_block key none r.index_entries)
    else some (ok none))
