-- ===== src/Sstable/Writer/Added.antt =====
-- `SSTableWriter::add`, entry by entry: the blocks, the index and the counters.
use enigma.Prelude.{
  ℕ, zero, ◌+◌, ◌≤◌, ◌≡◌, refl, sym, ◌∙◌, ap, arith, true, false, List, [], ◌∷◌, ◌++◌, length, max,
  length-append, append_assoc, append-nil, All, All-append, All-imp, ◌⊎◌, inl, inr, ◌==◌,
}
use enigma.Error.{ok}
use enigma.Storage.{Key, InternalValue, key_ord}
use enigma.BloomFilter
use enigma.BloomFilter.{BloomFilter}
use enigma.BloomFilter.Membership.{IsSized}
use enigma.Sstable.{max_paging_size_bytes}
use enigma.Sstable.Block.Entries.{entry_bytes, entries_bytes, length-entry_bytes}
use enigma.Sstable.Writer.{
  SstWriter, Output, required_size, write_entry, begin_block, flush_block, make_room, add,
}
use enigma.Sstable.Writer.Blocks.{
  Entries, write_entry-layout, entries_bytes-append, first_key, blocks_bytes, index_of, all_entries,
  blocks_bytes-last, all_entries-last, index_of-last,
}

-- Every append writes all its bytes.
abbrev pub Appends : Output → Type 0
Appends out = (file bytes : List ℕ) → out.append file bytes ≡ (file ++ bytes, ok (length bytes))

-- A block of at most the page's size, or of one entry that is larger.
abbrev pub IsPage : Entries → Type 0
IsPage b = (length (entries_bytes b) ≤ max_paging_size_bytes) ⊎ (length b ≡ 1)

-- A writer with blocks in its file, and entries that wait in its buffer.
pub record IsStored (w : SstWriter) (bs : List Entries) (pending : Entries) : Type 0 where
  pub file : w.file ≡ blocks_bytes bs
  pub buffer : w.buffer ≡ entries_bytes pending
  pub offset : w.current_file_offset ≡ length (blocks_bytes bs)
  pub start : w.current_block_start_offset ≡ length (blocks_bytes bs)
  pub first : w.current_block_first_key ≡ first_key pending
  pub index : w.index_entries ≡ index_of 0 bs
  pub count : w.entry_count ≡ length (all_entries bs ++ pending)
  pub highest :
      All
        (λ (e : Key × InternalValue). e.1.sequence ≤ w.highest_sequence)
        (all_entries bs ++ pending)
  pub sized : IsSized w.bloom_filter
  pub pages : All IsPage bs
  pub page : IsPage pending

-- The writer when its block is in the file.
abbrev pub flushed : SstWriter → SstWriter
flushed w = record w {
  file = w.file ++ w.buffer;
  index_entries =
      w.index_entries
      ++ (record {
        first_key = w.current_block_first_key;
        block_offset = w.current_block_start_offset;
        block_size = length w.buffer;
      }
          ∷ []);
  current_file_offset = w.current_file_offset + length w.buffer;
  buffer = [];
}

-- The writer with one more entry.
abbrev pub grown : Key → InternalValue → BloomFilter → SstWriter → SstWriter
grown key v f w = record (begin_block key w) {
  buffer = write_entry key v w.buffer;
  bloom_filter = f;
  highest_sequence = max w.highest_sequence v.sequence;
  entry_count = w.entry_count + 1;
}

module _ (out : Output) (appends : Appends out) where
  pub flush_block-flushed : (w : SstWriter) → flush_block out w ≡ (flushed w, ok tt)
  flush_block-flushed w =
      let same : (length w.buffer == length w.buffer) ≡ true = ground arith in
      unfold flush_block in rw (appends w.file w.buffer, same)

  pub add-steps :
      (key : Key) (v : InternalValue) (w w1 : SstWriter) {f : BloomFilter}
      → make_room out (required_size key v) w ≡ (w1, ok tt)
      → BloomFilter.add w1.bloom_filter key ≡ ok f
      → add out key v w ≡ (grown key v f w1, ok tt)
  add-steps key v w w1 e g = unfold add in rw (e, g)

-- One more entry, whatever the blocks are that it goes into.
counted :
    (n : ℕ) (m : Entries) (e : Key × InternalValue) → n ≡ length m → n + 1 ≡ length (m ++ (e ∷ []))
counted n m e h = omega (arith, h, length-append m (e ∷ []))

raised :
    (n : ℕ) (m : Entries) (e : Key × InternalValue)
    → All (λ (x : Key × InternalValue). x.1.sequence ≤ n) m
    → All (λ (x : Key × InternalValue). x.1.sequence ≤ max n e.1.sequence) (m ++ (e ∷ []))
raised n m e a =
    All-append (λ (x : Key × InternalValue). x.1.sequence ≤ max n e.1.sequence) m (e ∷ [])
      (All-imp m (λ x h. omega (arith, h)) a) (omega arith, tt)

pub grown-full :
    (w : SstWriter) (bs : List Entries) (pending : Entries) (key : Key) (v : InternalValue)
    (f : BloomFilter)
    → IsStored w bs pending
    → IsSized f
    → IsStored (grown key v f (flushed w)) (bs ++ (pending ∷ [])) ((key, v) ∷ [])
unfolding entries_bytes
grown-full w bs pending key v f s z =
    let bytes = blocks_bytes-last bs pending in
    let entries = all_entries-last bs pending in
    let offset : w.current_file_offset + length w.buffer
        ≡ length (blocks_bytes (bs ++ (pending ∷ []))) =
      omega (
        arith,
        s.offset,
        ap length s.buffer,
        ap length bytes,
        length-append (blocks_bytes bs) (entries_bytes pending),
      ) in
    record {
      file = rw (s.file, s.buffer) (sym bytes);
      buffer = write_entry-layout key v [] ∙ sym (append-nil (entry_bytes key v));
      offset = offset;
      start = offset;
      first = refl;
      index =
          rw (s.index, s.first, s.start, s.buffer)
            (let e : zero + length (blocks_bytes bs) ≡ length (blocks_bytes bs) = omega arith in
              sym (index_of-last 0 bs pending ∙ rw e refl));
      count = rw entries (counted w.entry_count (all_entries bs ++ pending) (key, v) s.count);
      highest =
          rw entries (raised w.highest_sequence (all_entries bs ++ pending) (key, v) s.highest);
      sized = z;
      pages = All-append IsPage bs (pending ∷ []) s.pages (s.page, tt);
      page = inr refl;
    }

length-entry_positive :
    (key : Key) (v : InternalValue) (m : Entries) → 1 ≤ length (entries_bytes ((key, v) ∷ m))
unfolding entries_bytes
length-entry_positive key v m =
    omega (arith, length-entry_bytes key v, length-append (entry_bytes key v) (entries_bytes m))

-- Whether a block is empty.
buffer_empty :
    (w : SstWriter) (bs : List Entries) (pending : Entries)
    → IsStored w bs pending
    → ((pending ≡ []) × ((length w.buffer == 0) ≡ true))
      ⊎ (((length w.buffer == 0) ≡ false)
          × ((m : Entries) → first_key (pending ++ m) ≡ first_key pending))
buffer_empty w bs [] s =
    let e : length w.buffer ≡ 0 = ap length s.buffer ∙ (unfold entries_bytes in refl) in
    inl (refl, ground arith)
buffer_empty w bs ((k, v) ∷ pending) s =
    let e : 1 ≤ length w.buffer =
      omega (arith, ap length s.buffer, length-entry_positive k v pending) in
    inr (ground arith, λ m. refl)

grown-start :
    (w : SstWriter) (bs : List Entries) (pending : Entries) (key : Key) (v : InternalValue)
    → IsStored w bs pending
    → ((begin_block key w).current_block_start_offset ≡ length (blocks_bytes bs))
      × ((begin_block key w).current_block_first_key ≡ first_key (pending ++ ((key, v) ∷ [])))
grown-start w bs pending key v s = elim (buffer_empty w bs pending s) [
  | inl (none_waits, empty) ↦ rw empty (s.offset, rw none_waits refl)
  | inr (some_wait, same) ↦ rw some_wait (s.start, s.first ∙ sym (same ((key, v) ∷ [])))
]

pub grown-room :
    (w : SstWriter) (bs : List Entries) (pending : Entries) (key : Key) (v : InternalValue)
    (f : BloomFilter)
    → IsStored w bs pending
    → IsSized f
    → length w.buffer + required_size key v ≤ max_paging_size_bytes
    → IsStored (grown key v f w) bs (pending ++ ((key, v) ∷ []))
grown-room w bs pending key v f s z room =
    let one : entries_bytes ((key, v) ∷ []) ≡ entry_bytes key v =
      unfold entries_bytes in append-nil (entry_bytes key v) in
    let all : entries_bytes (pending ++ ((key, v) ∷ []))
        ≡ entries_bytes pending ++ entry_bytes key v =
      entries_bytes-append pending ((key, v) ∷ []) ∙ ap (λ x. entries_bytes pending ++ x) one in
    let more : all_entries bs ++ (pending ++ ((key, v) ∷ []))
        ≡ (all_entries bs ++ pending) ++ ((key, v) ∷ []) =
      sym (append_assoc (all_entries bs) pending ((key, v) ∷ [])) in
    let begun = grown-start w bs pending key v s in
    record {
      file = s.file;
      buffer =
          write_entry-layout key v w.buffer ∙ ap (λ x. x ++ entry_bytes key v) s.buffer ∙ sym all;
      offset = s.offset;
      start = begun.0;
      first = begun.1;
      index = s.index;
      count = rw more (counted w.entry_count (all_entries bs ++ pending) (key, v) s.count);
      highest = rw more (raised w.highest_sequence (all_entries bs ++ pending) (key, v) s.highest);
      sized = z;
      pages = s.pages;
      page = inl (
          omega (
            arith,
            room,
            ap length s.buffer,
            ap length all,
            length-append (entries_bytes pending) (entry_bytes key v),
            length-entry_bytes key v,
          ));
    }
