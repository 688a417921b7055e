-- ===== src/Sstable/Writer.antt =====
-- src/storage/dazzle_db/sstable/sstable_writer.cpp. The file is what was appended to it; the calls of
-- the I/O engine are parameters.
pub mod Finish
pub mod Blocks
pub mod Added
pub mod Entries
use enigma.Prelude.{
  ℕ, ◌+◌, ◌%◌, ◌^◌, Bool, true, false, Option, none, some, List, [], ◌∷◌, ◌++◌, length, take,
  replicate, ltb, leb, max, ◌==◌, if◌then◌else◌,
}
use enigma.Error.{Result, ok, err, fault, error, unexpected_err}
use enigma.Io.{Io, pure, returns, modify, ◌>>=◌, ◌>>◌}
use enigma.Storage.{Key, InternalValue}
use enigma.Crc32.{compute_crc_32}
use enigma.Encoding.{encode_uint8, encode_uint16, encode_uint32, encode_uint64, encode_bytes}
use enigma.BloomFilter.{BloomFilter}
use enigma.BloomFilter
use enigma.Sstable.{
  IndexEntry, footer_size, footer_checksum_offset, max_paging_size_bytes, sstable_format_version,
  magic,
}

pub record SstWriter : Type 0 where
  pub file : List ℕ
  pub path : List ℕ
  pub buffer : List ℕ
  pub current_block_first_key : Key
  pub current_file_offset : ℕ
  pub current_block_start_offset : ℕ
  pub bloom_filter : BloomFilter
  pub highest_sequence : ℕ
  pub index_entries : List IndexEntry
  pub entry_count : ℕ

-- The I/O engine: `append` gives the file after it and the number of bytes.
pub record Output : Type 0 where
  pub append : List ℕ → List ℕ → List ℕ × Result ℕ
  pub sync_all : Result (Unit {0})
  pub sync_directory : List ℕ → Result (Unit {0})

-- The constructor, behind `engine.open`.
abbrev pub new_writer : List ℕ → BloomFilter → SstWriter
new_writer path bloom_filter = record {
  file = [];
  path = path;
  buffer = [];
  current_block_first_key = [];
  current_file_offset = 0;
  current_block_start_offset = 0;
  bloom_filter = bloom_filter;
  highest_sequence = 0;
  index_entries = [];
  entry_count = 0;
}

-- The bytes that the entry takes in a block.
abbrev pub required_size : Key → InternalValue → ℕ
required_size key value = 4 + length key + 4 + length value.bytes + 1 + 8

abbrev pub as_byte : Bool → ℕ
as_byte true = 1
as_byte false = 0

-- The serialization of `add`, into the resized buffer.
unfoldable pub write_entry : Key → InternalValue → List ℕ → List ℕ
write_entry key value buffer =
    let b0 = buffer ++ replicate (required_size key value) 0 in
    let (b1, o1) = encode_uint32 (length key) b0 (length buffer) in
    let (b2, o2) = encode_bytes key b1 o1 in
    let (b3, o3) = encode_uint32 (length value.bytes) b2 o2 in
    let (b4, o4) = encode_bytes value.bytes b3 o3 in
    let (b5, o5) = encode_uint8 (as_byte value.is_tombstone) b4 o4 in
    (encode_uint64 value.sequence b5 o5).0

-- `if (buffer_.empty())`: the entry begins a block.
abbrev pub begin_block : Key → SstWriter → SstWriter
begin_block key w =
    let empty = length w.buffer == 0 in
    record w {
      current_block_first_key = if empty then key else w.current_block_first_key;
      current_block_start_offset =
          if empty then w.current_file_offset else w.current_block_start_offset;
    }

module _ (out : Output) where
  -- `engine_.append(fh_, ...)`
  abbrev pub append : List ℕ → Io SstWriter ℕ
  append bytes w = let (file, r) = out.append w.file bytes in (record w { file = file }, r)

  -- An append that must write everything.
  abbrev pub append_all : List ℕ → Result (Unit {0}) → Io SstWriter (Unit {0})
  append_all bytes short = do
    written ← append bytes
    returns (if written == length bytes then ok tt else short)

  -- `SSTableWriter::flush_block`
  unfoldable pub flush_block : Io SstWriter (Unit {0})
  flush_block w =
      (append_all w.buffer (err (error unexpected_err "failed to write full block"))
          >> modify (λ (v : SstWriter). record v {
            index_entries =
                v.index_entries
                ++ (record {
                  first_key = v.current_block_first_key;
                  block_offset = v.current_block_start_offset;
                  block_size = length v.buffer;
                }
                    ∷ []);
            current_file_offset = v.current_file_offset + length v.buffer;
            buffer = [];
          }))
        w

  -- `if (buffer_.size() + required_size > MAX_PAGING_SIZE_BYTES)`
  abbrev pub make_room : ℕ → Io SstWriter (Unit {0})
  make_room required w =
      if ltb max_paging_size_bytes (length w.buffer + required) then flush_block w else (w, ok tt)

  abbrev pub add_to_filter : Key → Io SstWriter (Unit {0})
  add_to_filter key w = set_filter (BloomFilter.add w.bloom_filter key)
    where
      set_filter : Result BloomFilter → SstWriter × Result (Unit {0})
      set_filter (ok f) = (record w { bloom_filter = f }, ok tt)
      set_filter (err e) = (w, err e)
      set_filter fault = (w, fault)

  -- `SSTableWriter::add`
  unfoldable pub add : Key → InternalValue → Io SstWriter (Unit {0})
  add key value = do
    make_room (required_size key value)
    modify
        (λ (w : SstWriter). record (begin_block key w) { buffer = write_entry key value w.buffer })
    add_to_filter key
    modify (λ (w : SstWriter). record w {
      highest_sequence = max w.highest_sequence value.sequence;
      entry_count = w.entry_count + 1;
    })
