-- ===== src/Sstable/Iterator/Steps.antt =====
-- The steps of an iterator that stands in a block.
use enigma.Prelude.{
  ℕ, zero, suc, ◌+◌, ◌≤◌, ◌≡◌, ◌≢◌, refl, sym, ◌∙◌, ap, subst, arith, Bool, true, false, Option,
  none, some, List, [], ◌∷◌, ◌++◌, length, get_elem?, leb, length-append, append_assoc, append-nil,
  if◌then◌else◌,
}
use enigma.Error.{Result, Error, ok, err, fault, in_range, ◌>>=◌}
use enigma.Storage.{Key, InternalValue}
use enigma.Wal.Reader.{Reads}
use enigma.Encoding.{Buffer}
use enigma.Encoding.Segment.{At, At-whole}
use enigma.Sstable.{IndexEntry}
use enigma.Sstable.Block.{next_messages}
use enigma.Sstable.Block.Entries.{
  IsStorable, entry_bytes, entries_bytes, length-entry_bytes, At-value, read_head-entry,
  read_tail-entry,
}
use enigma.Sstable.Writer.Blocks.{Entries, blocks_bytes, index_of, entries_bytes-append}
use enigma.Sstable.Iterator.{
  SstIterator, read_entry, decode_entry, advance, unless_failed, next_block, after_load, next,
  load_block,
}
use enigma.Sstable.Iterator.Load.{entry_of, get_elem?-index_of, loaded, load_block-loaded}

-- `for (it.seek_to_first(); it.valid(); it.next())`, from the first step's result on: what the loop sees, or
-- the error that it ends in; `none` means that the fuel ran out.
abbrev pub visit :
    Bool → Option Error → Key × InternalValue → Option (Result Entries) → Option (Result Entries)
visit true e shown (some (ok l)) = some (ok (shown ∷ l))
visit true e shown rest = rest
visit false none shown rest = some (ok [])
visit false (some e) shown rest = some (err e)

unfoldable pub drain : ℕ → Result SstIterator → Option (Result Entries)
drain zero r = none
drain (suc fuel) fault = some fault
drain (suc fuel) (err e) = some (err e)
drain (suc fuel) (ok it) =
    let rest = drain fuel (next it) in
    visit it.valid it.error (it.current_key, it.current_value) rest

read_entry-At :
    (block : Buffer) (offset : ℕ) (key : Key) (v : InternalValue)
    → IsStorable key v
    → At block offset (entry_bytes key v)
    → read_entry block (length block) offset ≡ ok (key, v, offset + length (entry_bytes key v))
read_entry-At block offset key v s a =
    let size : offset + 4 + length key + 4 + length v.bytes + 9
        ≡ offset + length (entry_bytes key v) =
      omega (arith, length-entry_bytes key v) in
    steps (read_head-entry next_messages block offset key v s a)
      (read_tail-entry block (offset + 4 + length key + 4) key v s (At-value block offset key v a))
    ∙ ap (λ o. ok (key, v, o)) size
  where
    steps :
        enigma.Sstable.Block.read_head next_messages block (length block) offset
          ≡ ok (key, offset + 4 + length key + 4, length v.bytes)
        → enigma.Sstable.Block.read_tail block
            (length block)
            (offset + 4 + length key + 4)
            (length v.bytes)
          ≡ ok v
        → read_entry block (length block) offset
          ≡ ok (key, v, offset + 4 + length key + 4 + length v.bytes + 9)
    steps e f = unfold read_entry in rw (e, f)

-- The iterator at a block: its index, its file, and how far it is.
pub record Standing (before after : List Entries) (b done rest : Entries) (tail : List ℕ)
    (it : SstIterator) : Type 0 where
  pub index : it.reader.index_entries ≡ index_of 0 (before ++ (b ∷ after))
  pub reads : Reads (blocks_bytes (before ++ (b ∷ after)) ++ tail) it.reader.read
  pub at : it.current_block_idx ≡ length before
  pub buffer : it.block_buffer ≡ entries_bytes b
  pub offset : it.block_offset ≡ length (entries_bytes done)
  pub split : b ≡ done ++ rest
  pub clean : it.error ≡ none

pub here :
    (before after : List Entries) (b done rest : Entries) (tail : List ℕ) (it : SstIterator)
    → Standing before after b done rest tail it
    → get_elem? it.reader.index_entries it.current_block_idx
      ≡ some (entry_of (0 + length (blocks_bytes before)) b)
here before after b done rest tail it s =
    ap (λ l. get_elem? l it.current_block_idx) s.index
    ∙ ap (get_elem? (index_of 0 (before ++ (b ∷ after)))) s.at
    ∙ get_elem?-index_of 0 before after b

-- The iterator that shows an entry.
abbrev pub showing : Key → InternalValue → ℕ → SstIterator → SstIterator
showing key v offset it = record it {
  current_key = key;
  current_value = v;
  block_offset = offset;
  valid = true;
}

decode_entry-steps :
    (it : SstIterator) (entry : IndexEntry) (x : ℕ) (xs : List ℕ) (key : Key) (v : InternalValue)
    (offset : ℕ)
    → it.block_buffer ≡ x ∷ xs
    → get_elem? it.reader.index_entries it.current_block_idx ≡ some entry
    → read_entry (x ∷ xs) entry.block_size it.block_offset ≡ ok (key, v, offset)
    → decode_entry it ≡ ok (showing key v offset it)
decode_entry-steps it entry x xs key v offset e f g = unfold decode_entry in rw (e, f, g)

pub advance-decode :
    (it : SstIterator) (entry : IndexEntry) (x : ℕ) (xs : List ℕ)
    → it.error ≡ none
    → it.block_buffer ≡ x ∷ xs
    → get_elem? it.reader.index_entries it.current_block_idx ≡ some entry
    → leb entry.block_size it.block_offset ≡ false
    → next it ≡ decode_entry it
advance-decode it entry x xs e f g h = unfold next in rw (e, f, g, h)

pub next-last :
    (it : SstIterator) (entry : IndexEntry) (x : ℕ) (xs : List ℕ)
    → it.error ≡ none
    → it.block_buffer ≡ x ∷ xs
    → get_elem? it.reader.index_entries it.current_block_idx ≡ some entry
    → leb entry.block_size it.block_offset ≡ true
    → leb (length it.reader.index_entries) (it.current_block_idx + 1) ≡ true
    → next it ≡ ok (record it { current_block_idx = it.current_block_idx + 1; valid = false })
next-last it entry x xs e f g h l = unfold next in rw (e, f, g, h, l)

-- The iterator at the next block.
abbrev pub moved : SstIterator → SstIterator
moved it = record it { current_block_idx = it.current_block_idx + 1 }

next-clean : (it : SstIterator) → it.error ≡ none → next it ≡ advance it it.block_buffer
next-clean it e = unfold next in ap (unless_failed it) e

pub next-moved :
    (it : SstIterator) (entry : IndexEntry) (x : ℕ) (xs : List ℕ) (b : Entries)
    → it.error ≡ none
    → it.block_buffer ≡ x ∷ xs
    → get_elem? it.reader.index_entries it.current_block_idx ≡ some entry
    → leb entry.block_size it.block_offset ≡ true
    → leb (length it.reader.index_entries) (it.current_block_idx + 1) ≡ false
    → load_block (moved it) ≡ ok (loaded b (moved it), true)
    → next it ≡ decode_entry (loaded b (moved it))
next-moved it entry x xs b e f g h l k =
    next-clean it e
    ∙ ap (advance it) f
    ∙ ap
        (λ o. in_range o >>= λ i.
          if leb i.block_size it.block_offset then next_block it else decode_entry it)
        g
    ∙ ap (λ c. if c then next_block it else decode_entry it) h
    ∙ ap
        (λ c.
          if c
          then ok (record (moved it) { valid = false })
          else load_block (moved it) >>= after_load)
        l
    ∙ ap (λ r. r >>= after_load) k

pub nonempty : (b : Entries) → b ≢ [] → (x : ℕ) × (xs : List ℕ) × (entries_bytes b ≡ x ∷ xs)
nonempty b h = by_length (entries_bytes b) refl (positive b h)
  where
    positive : (b : Entries) → b ≢ [] → 1 ≤ length (entries_bytes b)
    positive [] h = absurd (h refl)
    positive ((k, v) ∷ m) h =
        unfold entries_bytes in
        omega (arith, length-entry_bytes k v, length-append (entry_bytes k v) (entries_bytes m))

    by_length :
        (l : List ℕ)
        → entries_bytes b ≡ l
        → 1 ≤ length (entries_bytes b)
        → (x : ℕ) × (xs : List ℕ) × (entries_bytes b ≡ x ∷ xs)
    by_length [] e p = absurd (omega (arith, ap length e, p))
    by_length (x ∷ xs) e p = (x, xs, e)

-- Decoding the next entry of the block.
pub decode_entry-showing :
    (before after : List Entries) (b done : Entries) (k : Key) (v : InternalValue) (m : Entries)
    (tail : List ℕ) (it : SstIterator)
    → b ≢ []
    → IsStorable k v
    → Standing before after b done ((k, v) ∷ m) tail it
    → decode_entry it ≡ ok (showing k v (length (entries_bytes (done ++ ((k, v) ∷ [])))) it)
decode_entry-showing before after b done k v m tail it ne fit s =
    let (x, xs, e) = nonempty b ne in
    let bytes : entries_bytes b ≡ entries_bytes done ++ (entry_bytes k v ++ entries_bytes m) =
      ap entries_bytes s.split
      ∙ entries_bytes-append done ((k, v) ∷ m)
      ∙ ap (λ l. entries_bytes done ++ l) (unfold entries_bytes in refl) in
    let stands : At (entries_bytes b) it.block_offset (entry_bytes k v) =
      subst (λ o. At (entries_bytes b) o (entry_bytes k v)) (sym s.offset)
        (subst (λ l. At l (length (entries_bytes done)) (entry_bytes k v)) (sym bytes)
          (At-whole (entries_bytes done) (entry_bytes k v) (entries_bytes m))) in
    let after_it : it.block_offset + length (entry_bytes k v)
        ≡ length (entries_bytes (done ++ ((k, v) ∷ []))) =
      omega (
        arith,
        s.offset,
        ap length (entries_bytes-append done ((k, v) ∷ [])),
        length-append (entries_bytes done) (entries_bytes ((k, v) ∷ [])),
        one k v,
      ) in
    decode_entry-steps it (entry_of (0 + length (blocks_bytes before)) b) x xs k v _ (s.buffer ∙ e)
      (here before after b done ((k, v) ∷ m) tail it s)
      (subst
        (λ l.
          read_entry l (length (entries_bytes b)) it.block_offset
          ≡ ok (k, v, length (entries_bytes (done ++ ((k, v) ∷ [])))))
        e
        (read_entry-At (entries_bytes b) it.block_offset k v fit stands
          ∙ ap (λ o. ok (k, v, o)) after_it))
  where
    one :
        (k : Key) (v : InternalValue)
        → length (entries_bytes ((k, v) ∷ [])) ≡ length (entry_bytes k v)
    one k v = unfold entries_bytes in ap length (append-nil (entry_bytes k v))

-- The iterator after it showed an entry, and after it loaded the next block.
pub Standing-showing :
    (before after : List Entries) (b done : Entries) (k : Key) (v : InternalValue) (m : Entries)
    (tail : List ℕ) (it : SstIterator)
    → Standing before after b done ((k, v) ∷ m) tail it
    → Standing before after b
        (done ++ ((k, v) ∷ []))
        m
        tail
        (showing k v (length (entries_bytes (done ++ ((k, v) ∷ [])))) it)
Standing-showing before after b done k v m tail it s = record {
  index = s.index;
  reads = s.reads;
  at = s.at;
  buffer = s.buffer;
  offset = refl;
  split = s.split ∙ sym (append_assoc done ((k, v) ∷ []) m);
  clean = s.clean;
}

pub Standing-loaded :
    (before after : List Entries) (b b' done : Entries) (tail : List ℕ) (it : SstIterator)
    → Standing before (b' ∷ after) b done [] tail it
    → (load_block (moved it) ≡ ok (loaded b' (moved it), true))
      × Standing (before ++ (b ∷ [])) after b' [] b' tail (loaded b' (moved it))
Standing-loaded before after b b' done tail it s =
    let all : before ++ (b ∷ b' ∷ after) ≡ (before ++ (b ∷ [])) ++ (b' ∷ after) =
      sym (append_assoc before (b ∷ []) (b' ∷ after)) in
    let index = s.index ∙ ap (index_of 0) all in
    let at : it.current_block_idx + 1 ≡ length (before ++ (b ∷ [])) =
      omega (arith, s.at, length-append before (b ∷ [])) in
    let reads = subst (λ l. Reads (blocks_bytes l ++ tail) it.reader.read) all s.reads in
    (
      load_block-loaded (moved it) (before ++ (b ∷ [])) after b' tail index at reads,
      record {
        index = index;
        reads = reads;
        at = at;
        buffer = refl;
        offset = unfold entries_bytes in refl;
        split = refl;
        clean = s.clean;
      },
    )

pub visit-true :
    (fuel : ℕ) (it : SstIterator) {l : Entries}
    → it.valid ≡ true
    → drain fuel (next it) ≡ some (ok l)
    → drain (suc fuel) (ok it) ≡ some (ok ((it.current_key, it.current_value) ∷ l))
visit-true fuel it e f =
    unfold drain in
    ap (λ c. visit c it.error (it.current_key, it.current_value) (drain fuel (next it))) e
    ∙ ap (visit true it.error (it.current_key, it.current_value)) f

pub visit-false :
    (fuel : ℕ) (it : SstIterator)
    → it.valid ≡ false
    → it.error ≡ none
    → drain (suc fuel) (ok it) ≡ some (ok [])
visit-false fuel it e f =
    unfold drain in
    ap (λ c. visit c it.error (it.current_key, it.current_value) (drain fuel (next it))) e
    ∙ ap (λ o. visit false o (it.current_key, it.current_value) (drain fuel (next it))) f
