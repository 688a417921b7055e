-- ===== src/Sstable/Iterator/Oversized.antt =====
-- A table whose first entry is larger than a page: its first block is empty, and an iterator stops there.
use enigma.Prelude.{ℕ, ◌+◌, ◌<◌, ◌≡◌, refl, arith, true, false, none, List, [], ◌∷◌, ltb}
use enigma.Error.{ok}
use enigma.Storage.{Key, InternalValue}
use enigma.Wal.Reader.{Reads}
use enigma.BloomFilter.{BloomFilter}
use enigma.BloomFilter.Membership.{IsSized, add-IsSized}
use enigma.Sstable.{IndexEntry, max_paging_size_bytes}
use enigma.Sstable.Writer.{SstWriter, Output, new_writer, required_size, add}
use enigma.Sstable.Writer.Added.{Appends, flushed, grown, flush_block-flushed, add-steps}
use enigma.Sstable.Iterator.{SstIterator, rewound, load_block, next, decode_entry, seek_to_first}

abbrev pub empty_block : IndexEntry
empty_block = record { first_key = []; block_offset = 0; block_size = 0 }

-- The iterator ended without an error.
pub record IsEnded (it : SstIterator) : Type 0 where
  pub valid : it.valid ≡ false
  pub error : it.error ≡ none

add-oversized :
    (out : Output) (path : List ℕ) (filter : BloomFilter) (key : Key) (v : InternalValue)
    → Appends out
    → IsSized filter
    → max_paging_size_bytes < required_size key v
    → (w : SstWriter) × (add out key v (new_writer path filter) ≡ (w, ok tt))
      × (w.index_entries ≡ empty_block ∷ [])
add-oversized out path filter key v appends z large =
    let w = new_writer path filter in
    let (f, e, z') = add-IsSized filter key z in
    let full : ltb max_paging_size_bytes (0 + required_size key v) ≡ true = ground arith in
    (
      grown key v f (flushed w),
      add-steps out appends key v w (flushed w) (rw full (flush_block-flushed out appends w)) e,
      refl,
    )

seek_to_first-empty :
    (it : SstIterator) (entries : List IndexEntry)
    → it.reader.index_entries ≡ empty_block ∷ entries
    → it.reader.read 0 0 ≡ ok []
    → seek_to_first it ≡ ok (rewound it)
seek_to_first-empty it entries e f = unfold seek_to_first load_block next decode_entry in rw (e, f)

-- Where every append writes all its bytes, adding an entry that takes more than 4096 bytes to a new
-- writer succeeds and puts an empty block into the index; and an iterator on any table whose index
-- begins with that block ends at `seek_to_first`, without an error, whatever blocks follow.
pub seek_to_first-oversized :
    (out : Output) (path : List ℕ) (filter : BloomFilter) (key : Key) (v : InternalValue)
    (it : SstIterator) (entries : List IndexEntry) (file : List ℕ)
    → Appends out
    → IsSized filter
    → max_paging_size_bytes < required_size key v
    → it.reader.index_entries ≡ empty_block ∷ entries
    → Reads file it.reader.read
    → ((w : SstWriter) × (add out key v (new_writer path filter) ≡ (w, ok tt))
        × (w.index_entries ≡ empty_block ∷ []))
      × ((it' : SstIterator) × (seek_to_first it ≡ ok it') × IsEnded it')
seek_to_first-oversized out path filter key v it entries file appends z large e reads = (
  add-oversized out path filter key v appends z large,
  (rewound it, seek_to_first-empty it entries e (reads 0 0), record { valid = refl; error = refl }),
)
