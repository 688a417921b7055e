-- ===== src/Sstable/Iterator/Load.antt =====
-- The blocks that an iterator loads.
use enigma.Prelude.{
  ℕ, zero, suc, ◌+◌, ◌-◌, ◌≡◌, refl, sym, ◌∙◌, ap, arith, true, some, List, [], ◌∷◌, ◌++◌, length,
  take, drop, replicate, get_elem?, length-append, append_assoc, append-nil, take-length-append,
  drop-length-append, length-replicate,
}
use enigma.Error.{ok}
use enigma.Wal.Reader.{Reads}
use enigma.Sstable.{IndexEntry}
use enigma.Sstable.Block.Entries.{entries_bytes}
use enigma.Sstable.Writer.Blocks.{Entries, first_key, blocks_bytes, index_of}
use enigma.Sstable.Iterator.{SstIterator, resize, load_block}

-- The index entry of a block at an offset.
abbrev pub entry_of : ℕ → Entries → IndexEntry
entry_of offset b = record {
  first_key = first_key b;
  block_offset = offset;
  block_size = length (entries_bytes b);
}

pub get_elem?-index_of :
    (offset : ℕ) (before after : List Entries) (b : Entries)
    → get_elem? (index_of offset (before ++ (b ∷ after))) (length before)
      ≡ some (entry_of (offset + length (blocks_bytes before)) b)
unfolding index_of blocks_bytes
get_elem?-index_of offset [] after b = let e : offset + 0 ≡ offset = omega arith in rw e
get_elem?-index_of offset (a ∷ before) after b =
    get_elem?-index_of (offset + length (entries_bytes a)) before after b
    ∙ ap (λ n. some (entry_of n b))
        (omega (arith, length-append (entries_bytes a) (blocks_bytes before)))

pub length-index_of : (offset : ℕ) (bs : List Entries) → length (index_of offset bs) ≡ length bs
unfolding index_of
length-index_of offset [] = refl
length-index_of offset (b ∷ bs) = ap suc (length-index_of (offset + length (entries_bytes b)) bs)

blocks_bytes-append :
    (xs ys : List Entries) → blocks_bytes (xs ++ ys) ≡ blocks_bytes xs ++ blocks_bytes ys
unfolding blocks_bytes
blocks_bytes-append [] ys = refl
blocks_bytes-append (x ∷ xs) ys =
    ap (λ l. entries_bytes x ++ l) (blocks_bytes-append xs ys)
    ∙ sym (append_assoc (entries_bytes x) (blocks_bytes xs) (blocks_bytes ys))

-- The bytes of a block, where the file has them.
block_in_file :
    (before after : List Entries) (b : Entries) (tail : List ℕ)
    → take
        (length (entries_bytes b))
        (drop (length (blocks_bytes before)) (blocks_bytes (before ++ (b ∷ after)) ++ tail))
      ≡ entries_bytes b
block_in_file before after b tail =
    let split : blocks_bytes (before ++ (b ∷ after)) ++ tail
        ≡ blocks_bytes before ++ (entries_bytes b ++ (blocks_bytes after ++ tail)) =
      unfold blocks_bytes in (rw (blocks_bytes-append before (b ∷ after)) (simp append_assoc)) in
    rw
      (
        split,
        drop-length-append (blocks_bytes before) (entries_bytes b ++ (blocks_bytes after ++ tail)),
      )
      (take-length-append (entries_bytes b) (blocks_bytes after ++ tail))

length-resize : (l : List ℕ) (n : ℕ) → length (resize l n) ≡ n
length-resize l n = omega (
  arith,
  length-append (take n l) (replicate (n - length l) 0),
  length-replicate {A = ℕ} (n - length l) 0,
  shorter n l,
)
  where
    shorter : (n : ℕ) (l : List ℕ) → length (take n l) + (n - length l) ≡ n
    shorter zero l = omega arith
    shorter (suc n) [] = omega arith
    shorter (suc n) (x ∷ l) = omega (arith, shorter n l)

drop-all : (l : List ℕ) (n : ℕ) → length l ≡ n → drop n l ≡ []
drop-all [] zero h = refl
drop-all [] (suc n) h = refl
drop-all (x ∷ l) zero h = absurd (omega arith)
drop-all (x ∷ l) (suc n) h = drop-all l n (omega arith)

-- The iterator with a block in its buffer.
abbrev pub loaded : Entries → SstIterator → SstIterator
loaded b it = record it { block_buffer = entries_bytes b; block_offset = 0 }

load_block-steps :
    (it : SstIterator) (entry : IndexEntry) (bytes : List ℕ)
    → get_elem? it.reader.index_entries it.current_block_idx ≡ some entry
    → it.reader.read entry.block_size entry.block_offset ≡ ok bytes
    → drop (length bytes) (resize it.block_buffer entry.block_size) ≡ []
    → load_block it ≡ ok ((record it { block_buffer = bytes; block_offset = 0 }), true)
load_block-steps it entry bytes e f g = unfold load_block in rw (e, f, g, append-nil bytes)

pub load_block-loaded :
    (it : SstIterator) (before after : List Entries) (b : Entries) (tail : List ℕ)
    → it.reader.index_entries ≡ index_of 0 (before ++ (b ∷ after))
    → it.current_block_idx ≡ length before
    → Reads (blocks_bytes (before ++ (b ∷ after)) ++ tail) it.reader.read
    → load_block it ≡ ok (loaded b it, true)
load_block-loaded it before after b tail index at reads =
    let size = length (entries_bytes b) in
    let offset = length (blocks_bytes before) in
    load_block-steps it (entry_of offset b) (entries_bytes b)
      (ap (λ l. get_elem? l it.current_block_idx) index
        ∙ ap (get_elem? (index_of 0 (before ++ (b ∷ after)))) at
        ∙ get_elem?-index_of 0 before after b
        ∙ ap (λ n. some (entry_of n b)) (omega arith))
      (reads size offset ∙ ap ok (block_in_file before after b tail))
      (drop-all (resize it.block_buffer size) size (length-resize it.block_buffer size))
