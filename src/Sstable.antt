-- ===== src/Sstable.antt =====
-- include/enigmadb/storage/dazzle_db/sstable/sstable_common.h: the records and the constants of the
-- table format. A table file is its data blocks, the index block, the filter block and the footer.
pub mod Block
pub mod Reader
pub mod Iterator
pub mod Writer
mod Tests
use enigma.Prelude.{
  ℕ, ◌+◌, Option, none, some, List, [], ◌∷◌, length, take, drop, leb, if◌then◌else◌,
}
use enigma.Storage.{Key}

abbrev pub footer_size : ℕ
footer_size = 64

abbrev pub magic_bytes_offset : ℕ
magic_bytes_offset = 50

abbrev pub footer_checksum_offset : ℕ
footer_checksum_offset = 46

abbrev pub max_paging_size_bytes : ℕ
max_paging_size_bytes = 4096

abbrev pub sstable_format_version : ℕ
sstable_format_version = 4

-- `ENIGSSTB`
abbrev pub magic : List ℕ
magic = 69 ∷ 78 ∷ 73 ∷ 71 ∷ 83 ∷ 83 ∷ 84 ∷ 66 ∷ []

pub record IndexEntry : Type 0 where
  pub first_key : Key
  pub block_offset : ℕ
  pub block_size : ℕ

pub record SstFooter : Type 0 where
  pub index_block_offset : ℕ
  pub index_block_size : ℕ
  pub filter_block_offset : ℕ
  pub filter_block_size : ℕ
  pub entry_count : ℕ
  pub format_version : ℕ
  pub highest_sequence : ℕ
  pub size_bytes : ℕ

-- `assign(buffer.data() + offset, buffer.data() + offset + n)`, where the bytes are there.
abbrev pub slice : List ℕ → ℕ → ℕ → Option (List ℕ)
slice buffer offset n =
    if leb (offset + n) (length buffer) then some (take n (drop offset buffer)) else none
