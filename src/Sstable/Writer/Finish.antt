-- ===== src/Sstable/Writer/Finish.antt =====
-- `SSTableWriter::finish`: the last block, the index block, the filter block and the footer.
use enigma.Prelude.{
  ℕ, ◌+◌, ◌%◌, ◌^◌, Option, none, some, List, [], ◌∷◌, length, take, replicate, ◌==◌, if◌then◌else◌,
}
use enigma.Error.{ok, err, error, unexpected_err}
use enigma.Io.{Io, pure, returns, ◌>>=◌, ◌>>◌}
use enigma.Crc32.{compute_crc_32}
use enigma.Encoding.{encode_uint8, encode_uint16, encode_uint32, encode_uint64, encode_bytes}
use enigma.BloomFilter.{BloomFilter}
use enigma.Sstable.{
  IndexEntry, SstFooter, footer_size, footer_checksum_offset, sstable_format_version, magic,
}
use enigma.Sstable.Writer.{SstWriter, Output, append, append_all, flush_block}

-- `index_size`
unfoldable pub index_size : List IndexEntry → ℕ
index_size [] = 0
index_size (entry ∷ entries) = 4 + length entry.first_key + 8 + 4 + index_size entries

-- The second loop: the entries into the buffer, from the offset on.
unfoldable pub write_index : List IndexEntry → List ℕ → ℕ → List ℕ
write_index [] buffer offset = buffer
write_index (entry ∷ entries) buffer offset =
    let (b1, o1) = encode_uint32 (length entry.first_key) buffer offset in
    let (b2, o2) = encode_bytes entry.first_key b1 o1 in
    let (b3, o3) = encode_uint64 entry.block_offset b2 o2 in
    let (b4, o4) = encode_uint32 entry.block_size b3 o3 in write_index entries b4 o4

unfoldable pub index_block : List IndexEntry → List ℕ
index_block entries = write_index entries (replicate (index_size entries) 0) 0

-- The number of hashes, as a byte, and the bits.
unfoldable pub filter_block : BloomFilter → List ℕ
filter_block filter =
    let buffer = replicate (length filter.bit_array + 1) 0 in
    (encode_bytes filter.bit_array (encode_uint8 (filter.num_hashes % 2 ^ 8) buffer 0).0 1).0

-- The fields of the footer, before its checksum.
unfoldable pub footer_fields : SstFooter → List ℕ × ℕ
footer_fields f =
    let (b1, o1) = encode_uint64 f.index_block_offset (replicate footer_size 0) 0 in
    let (b2, o2) = encode_uint32 f.index_block_size b1 o1 in
    let (b3, o3) = encode_uint64 f.filter_block_offset b2 o2 in
    let (b4, o4) = encode_uint32 f.filter_block_size b3 o3 in
    let (b5, o5) = encode_uint32 f.entry_count b4 o4 in
    let (b6, o6) = encode_uint16 f.format_version b5 o5 in
    let (b7, o7) = encode_uint64 f.highest_sequence b6 o6 in encode_uint64 f.size_bytes b7 o7

-- The footer with its checksum, its magic bytes and six bytes of padding.
unfoldable pub footer_block : SstFooter → List ℕ
footer_block f =
    let (b0, o0) = footer_fields f in
    let checksum = compute_crc_32 (take footer_checksum_offset b0) in
    let (b1, o1) = encode_uint32 checksum b0 o0 in
    let (b2, o2) = encode_bytes magic b1 o1 in
    let (b3, o3) = encode_uint32 0 b2 o2 in (encode_uint16 0 b3 o3).0

-- `path_.substr(0, slash_pos)`, where there is a slash.
unfoldable pub before_slash : List ℕ → Option (List ℕ)
before_slash [] = none
before_slash (b ∷ path) = elim (before_slash path) [
  | some front ↦ some (b ∷ front)
  | none ↦ if b == 47 then some [] else none
]

-- `.` stands for a path without one.
abbrev pub parent : List ℕ → List ℕ
parent path = elim (before_slash path) [ none ↦ 46 ∷ [] | some front ↦ front ]

-- The footer of a writer whose blocks are all written.
abbrev pub footer_of : SstWriter → List ℕ → List ℕ → SstFooter
footer_of w index filter = record {
  index_block_offset = w.current_file_offset;
  index_block_size = length index;
  filter_block_offset = w.current_file_offset + length index;
  filter_block_size = length filter;
  entry_count = w.entry_count;
  format_version = sstable_format_version;
  highest_sequence = w.highest_sequence;
  size_bytes = w.current_file_offset + length index + length filter + footer_size;
}

module _ (out : Output) where
  -- `if (!buffer_.empty())`
  abbrev pub flush_rest : Io SstWriter (Unit {0})
  flush_rest w = if length w.buffer == 0 then (w, ok tt) else flush_block out w

  -- The three blocks behind the data. The length of the footer's append is not looked at.
  unfoldable pub write_blocks : Io SstWriter (Unit {0})
  write_blocks w = do_write (index_block w.index_entries) (filter_block w.bloom_filter) w
    where
      do_write : List ℕ → List ℕ → Io SstWriter (Unit {0})
      do_write index filter = do
        append_all out index (err (error unexpected_err "failed to write index block"))
        append_all out filter (err (error unexpected_err "failed to write filter block"))
        written ← append out (footer_block (footer_of w index filter))
        pure tt

  -- `SSTableWriter::finish`
  unfoldable pub finish : Io SstWriter (Unit {0})
  finish = do
    flush_rest
    write_blocks
    returns out.sync_all
    (λ w. (w, out.sync_directory (parent w.path)))
