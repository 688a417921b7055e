-- ===== src/Sstable/Iterator/Drain.antt =====
-- An iterator over a table shows the entries of its blocks, in order.
use enigma.Prelude.{
  ℕ, zero, suc, ◌+◌, ◌≤◌, ◌<◌, ◌≡◌, ◌≢◌, refl, sym, ◌∙◌, ap, subst, arith, true, false, some, List,
  [], ◌∷◌, ◌++◌, length, leb, length-append, All,
}
use enigma.Error.{ok, ◌>>=◌}
use enigma.Storage.{Key, InternalValue}
use enigma.Wal.Reader.{Reads}
use enigma.Sstable.{IndexEntry}
use enigma.Sstable.Block.Entries.{IsStorable, entry_bytes, entries_bytes, length-entry_bytes}
use enigma.Sstable.Writer.Blocks.{
  Entries, blocks_bytes, index_of, all_entries, entries_bytes-append,
}
use enigma.Sstable.Iterator.{
  SstIterator, next, seek_to_first, rewound, load_block, seek, after_first,
}
use enigma.Sstable.Iterator.Load.{entry_of, length-index_of, loaded, load_block-loaded}
use enigma.Sstable.Iterator.Steps.{
  drain, Standing, showing, moved, here, nonempty, advance-decode, next-last, next-moved,
  decode_entry-showing, Standing-showing, Standing-loaded, visit-true, visit-false,
}

-- The lengths and the sequence numbers of the entries fit their fields.
abbrev pub AreStorable : Entries → Type 0
AreStorable m = All (λ (e : Key × InternalValue). IsStorable e.0 e.1) m

-- How the offset lies to the end of the block.
leb-rest :
    (before after : List Entries) (b done rest : Entries) (tail : List ℕ) (it : SstIterator)
    → Standing before after b done rest tail it
    → it.block_offset + length (entries_bytes rest) ≡ length (entries_bytes b)
leb-rest before after b done rest tail it s = omega (
  arith,
  s.offset,
  ap (λ m. length (entries_bytes m)) s.split,
  ap length (entries_bytes-append done rest),
  length-append (entries_bytes done) (entries_bytes rest),
)

entries_positive :
    (k : Key) (v : InternalValue) (m : Entries) → 1 ≤ length (entries_bytes ((k, v) ∷ m))
entries_positive k v m =
    unfold entries_bytes in
    omega (arith, length-entry_bytes k v, length-append (entry_bytes k v) (entries_bytes m))

no_bytes : length (entries_bytes []) ≡ 0
no_bytes = unfold entries_bytes in refl

-- Whether there is another block.
last_block :
    (before after : List Entries) (b done rest : Entries) (tail : List ℕ) (it : SstIterator)
    → Standing before after b done rest tail it
    → length it.reader.index_entries ≡ it.current_block_idx + 1 + length after
last_block before after b done rest tail it s = omega (
  arith,
  s.at,
  ap length s.index,
  length-index_of 0 (before ++ (b ∷ after)),
  length-append before (b ∷ after),
)

storable-append : (xs ys : Entries) → AreStorable (xs ++ ys) → AreStorable xs × AreStorable ys
storable-append [] ys a = (tt, a)
storable-append (x ∷ xs) ys a = let both = storable-append xs ys a.1 in ((a.0, both.0), both.1)

all_entries-cons : (b : Entries) (bs : List Entries) → all_entries (b ∷ bs) ≡ b ++ all_entries bs
all_entries-cons b bs = unfold all_entries in refl

no_entries : all_entries [] ≡ []
no_entries = unfold all_entries in refl

drain-next :
    (fuel : ℕ) (before after : List Entries) (b done m : Entries) (tail : List ℕ) (it : SstIterator)
    → b ≢ []
    → All (λ x. x ≢ []) after
    → AreStorable m
    → AreStorable (all_entries after)
    → Standing before after b done m tail it
    → length m + length (all_entries after) < fuel
    → drain fuel (next it) ≡ some (ok (m ++ all_entries after))
drain-next zero before after b done m tail it ne nes fit fits s less = absurd (omega arith)
drain-next (suc fuel) before after b done ((k, v) ∷ m) tail it ne nes fit fits s less =
    let (x, xs, e) = nonempty b ne in
    let inside : leb (length (entries_bytes b)) it.block_offset ≡ false =
      ground (arith, leb-rest before after b done ((k, v) ∷ m) tail it s, entries_positive k v m) in
    let shown = showing k v (length (entries_bytes (done ++ ((k, v) ∷ [])))) it in
    let later =
      drain-next fuel before after b (done ++ ((k, v) ∷ [])) m tail shown ne nes fit.1 fits
        (Standing-showing before after b done k v m tail it s) (omega (arith, less)) in
    ap (drain (suc fuel)) (
      advance-decode it _ x xs s.clean (s.buffer ∙ e)
        (here before after b done ((k, v) ∷ m) tail it s) inside
      ∙ decode_entry-showing before after b done k v m tail it ne fit.0 s)
    ∙ visit-true fuel shown refl later
drain-next (suc fuel) before [] b done [] tail it ne nes fit fits s less =
    let (x, xs, e) = nonempty b ne in
    let past : leb (length (entries_bytes b)) it.block_offset ≡ true =
      ground (arith, no_bytes, leb-rest before [] b done [] tail it s) in
    let over : leb (length it.reader.index_entries) (it.current_block_idx + 1) ≡ true =
      ground (arith, last_block before [] b done [] tail it s) in
    ap (drain (suc fuel))
      (next-last it _ x xs s.clean (s.buffer ∙ e) (here before [] b done [] tail it s) past over)
    ∙ visit-false fuel _ refl s.clean
    ∙ ap (λ l. some (ok l)) (sym no_entries)
drain-next (suc fuel) before ([] ∷ after) b done [] tail it ne nes fit fits s less =
    absurd (nes.0 refl)
drain-next (suc fuel) before (((k, v) ∷ m) ∷ after) b done [] tail it ne nes fit fits s less =
    let b' = (k, v) ∷ m in
    let (x, xs, e) = nonempty b ne in
    let past : leb (length (entries_bytes b)) it.block_offset ≡ true =
      ground (arith, no_bytes, leb-rest before (b' ∷ after) b done [] tail it s) in
    let more : leb (length it.reader.index_entries) (it.current_block_idx + 1) ≡ false =
      ground (arith, last_block before (b' ∷ after) b done [] tail it s) in
    let (load, s') = Standing-loaded before after b b' done tail it s in
    let it' = loaded b' (moved it) in
    let shown = showing k v (length (entries_bytes ([] ++ ((k, v) ∷ [])))) it' in
    let whole = all_entries-cons b' after in
    let both = storable-append b' (all_entries after) (subst AreStorable whole fits) in
    let later =
      drain-next fuel (before ++ (b ∷ [])) after b' ((k, v) ∷ []) m tail shown nes.0 nes.1 both.0.1
        both.1 (Standing-showing (before ++ (b ∷ [])) after b' [] k v m tail it' s')
        (omega (arith, less, ap length whole, length-append m (all_entries after))) in
    ap (drain (suc fuel)) (
      next-moved it _ x xs b' s.clean (s.buffer ∙ e) (here before (b' ∷ after) b done [] tail it s)
        past more load
      ∙ decode_entry-showing (before ++ (b ∷ [])) after b' [] k v m tail it' nes.0 both.0.0 s')
    ∙ visit-true fuel shown refl later
    ∙ ap (λ l. some (ok l)) (sym whole)

seek-first :
    (it : SstIterator) (b : Entries) (after : List Entries)
    → it.reader.index_entries ≡ index_of 0 (b ∷ after)
    → load_block (rewound it) ≡ ok (loaded b (rewound it), true)
    → seek_to_first it ≡ next (loaded b (rewound it))
seek-first it b after e f =
    let blocks : index_of 0 (b ∷ after)
        ≡ entry_of 0 b ∷ index_of (0 + length (entries_bytes b)) after =
      unfold index_of in refl in
    sought it (e ∙ blocks) ∙ ap (λ r. r >>= after_first) f
  where
    sought :
        (it : SstIterator) {x : IndexEntry} {xs : List IndexEntry}
        → it.reader.index_entries ≡ x ∷ xs
        → seek_to_first it ≡ (load_block (rewound it) >>= after_first)
    sought it e = unfold seek_to_first in ap (seek (rewound it)) e

seek-none : (it : SstIterator) → it.reader.index_entries ≡ [] → seek_to_first it ≡ ok (rewound it)
seek-none it e = unfold seek_to_first in ap (seek (rewound it)) e

no_index : index_of 0 [] ≡ []
no_index = unfold index_of in refl

-- Where the index of a table is that of blocks with entries each, whose lengths and sequence numbers
-- fit their fields, and the file begins with the data of those blocks, the loop from `seek_to_first` over
-- `next` ends without an error and shows all the entries, block after block, with a fuel above their
-- number.
pub drain-seek_to_first_table :
    (fuel : ℕ) (it : SstIterator) (bs : List Entries) (tail : List ℕ)
    → it.reader.index_entries ≡ index_of 0 bs
    → Reads (blocks_bytes bs ++ tail) it.reader.read
    → All (λ x. x ≢ []) bs
    → AreStorable (all_entries bs)
    → length (all_entries bs) < fuel
    → drain fuel (seek_to_first it) ≡ some (ok (all_entries bs))
drain-seek_to_first_table zero it bs tail index reads nes fit less = absurd (omega arith)
drain-seek_to_first_table (suc fuel) it [] tail index reads nes fit less =
    ap (drain (suc fuel)) (seek-none it (index ∙ no_index))
    ∙ visit-false fuel (rewound it) refl refl
    ∙ ap (λ l. some (ok l)) (sym no_entries)
drain-seek_to_first_table (suc fuel) it (b ∷ after) tail index reads nes fit less =
    let whole = all_entries-cons b after in
    let both = storable-append b (all_entries after) (subst AreStorable whole fit) in
    let first = loaded b (rewound it) in
    ap (drain (suc fuel)) (
      seek-first it b after index (load_block-loaded (rewound it) [] after b tail index refl reads))
    ∙ drain-next (suc fuel) [] after b [] b tail first nes.0 nes.1 both.0 both.1
        (record {
          index = index;
          reads = reads;
          at = refl;
          buffer = refl;
          offset = sym no_bytes;
          split = refl;
          clean = refl;
        })
        (omega (arith, less, ap length whole, length-append b (all_entries after)))
    ∙ ap (λ l. some (ok l)) (sym whole)
