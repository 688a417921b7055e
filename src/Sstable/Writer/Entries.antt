-- ===== src/Sstable/Writer/Entries.antt =====
-- A writer to which any entries were added; and what an iterator sees of a table whose first entry is
-- larger than a page.
use enigma.Prelude.{
  ℕ, ◌+◌, ◌≡◌, refl, sym, ◌∙◌, ap, arith, true, false, List, [], ◌∷◌, ◌++◌, length, ltb,
  append_assoc, append-nil, inl, inr, Bool-cases,
}
use enigma.Error.{ok}
use enigma.Io.{Io, pure, ◌>>◌}
use enigma.Storage.{Key, InternalValue}
use enigma.BloomFilter.{BloomFilter}
use enigma.BloomFilter.Membership.{IsSized, add-IsSized}
use enigma.Sstable.{max_paging_size_bytes}
use enigma.Sstable.Block.Entries.{entries_bytes}
use enigma.Sstable.Writer.{SstWriter, Output, new_writer, required_size, make_room, add}
use enigma.Sstable.Writer.Blocks.{Entries, blocks_bytes, index_of, all_entries, all_entries-last}
use enigma.Sstable.Writer.Added.{
  Appends, IsStored, flushed, grown, flush_block-flushed, add-steps, grown-full, grown-room,
}

-- One call of `add` after the other, until one fails.
unfoldable pub add_each : Output → Entries → Io SstWriter (Unit {0})
add_each out [] = pure tt
add_each out ((key, v) ∷ m) = add out key v >> add_each out m

module _ (out : Output) (appends : Appends out) where
  make_room-full :
      (required : ℕ) (w : SstWriter)
      → ltb max_paging_size_bytes (length w.buffer + required) ≡ true
      → make_room out required w ≡ (flushed w, ok tt)
  make_room-full required w e = rw e (flush_block-flushed out appends w)

  make_room-room :
      (required : ℕ) (w : SstWriter)
      → ltb max_paging_size_bytes (length w.buffer + required) ≡ false
      → make_room out required w ≡ (w, ok tt)
  make_room-room required w e = rw e

  -- `add`, with the block that was full in the file or the entry behind those that wait.
  add-IsStored :
      (w : SstWriter) (bs : List Entries) (pending : Entries) (key : Key) (v : InternalValue)
      → IsStored w bs pending
      → (w' : SstWriter) × (bs' : List Entries) × (pending' : Entries) × (add out key v w
          ≡ (w', ok tt))
        × IsStored w' bs' pending'
        × (all_entries bs' ++ pending' ≡ (all_entries bs ++ pending) ++ ((key, v) ∷ []))
  add-IsStored w bs pending key v s =
      let (f, e, z) = add-IsSized w.bloom_filter key s.sized in
      elim (Bool-cases (ltb max_paging_size_bytes (length w.buffer + required_size key v))) [
        | inl full ↦ (
          grown key v f (flushed w),
          bs ++ (pending ∷ []),
          (key, v) ∷ [],
          add-steps out appends key v w (flushed w) (make_room-full (required_size key v) w full) e,
          grown-full w bs pending key v f s z,
          ap (λ x. x ++ ((key, v) ∷ [])) (all_entries-last bs pending),
        )
        | inr room ↦ (
          grown key v f w,
          bs,
          pending ++ ((key, v) ∷ []),
          add-steps out appends key v w w (make_room-room (required_size key v) w room) e,
          grown-room w bs pending key v f s z (ground arith),
          sym (append_assoc (all_entries bs) pending ((key, v) ∷ [])),
        )
      ]

  add_each-step :
      (key : Key) (v : InternalValue) (m : Entries) (w w1 w2 : SstWriter)
      → add out key v w ≡ (w1, ok tt)
      → add_each out m w1 ≡ (w2, ok tt)
      → add_each out ((key, v) ∷ m) w ≡ (w2, ok tt)
  add_each-step key v m w w1 w2 e f = unfold add_each in rw (e, f)

  add_each-from :
      (w : SstWriter) (bs : List Entries) (pending m : Entries)
      → IsStored w bs pending
      → (w' : SstWriter) × (bs' : List Entries) × (pending' : Entries) × (add_each out m w
          ≡ (w', ok tt))
        × IsStored w' bs' pending'
        × (all_entries bs' ++ pending' ≡ (all_entries bs ++ pending) ++ m)
  add_each-from w bs pending [] s =
      (w, bs, pending, unfold add_each in refl, s, sym (append-nil (all_entries bs ++ pending)))
  add_each-from w bs pending ((key, v) ∷ m) s =
      let (w1, bs1, p1, e1, s1, a1) = add-IsStored w bs pending key v s in
      let (w2, bs2, p2, e2, s2, a2) = add_each-from w1 bs1 p1 m s1 in
      (
        w2,
        bs2,
        p2,
        add_each-step key v m w w1 w2 e1 e2,
        s2,
        a2 ∙ ap (λ x. x ++ m) a1 ∙ append_assoc (all_entries bs ++ pending) ((key, v) ∷ []) m,
      )

  -- Where every append writes all its bytes and the filter has bits, adding any entries to a new
  -- writer succeeds. The file then holds some of them in blocks, one behind the other, and the buffer
  -- the rest, in the order in which they were added; the index has each block's first key, offset and
  -- size; every block has at most 4096 bytes or is one larger entry; and the counters are the number of
  -- the entries and a bound of their sequence numbers.
  pub add_each-IsStored :
      (path : List ℕ) (filter : BloomFilter) (m : Entries)
      → IsSized filter
      → (w : SstWriter) × (bs : List Entries) × (pending : Entries) × (add_each out m
            (new_writer path filter)
          ≡ (w, ok tt))
        × IsStored w bs pending
        × (all_entries bs ++ pending ≡ m)
  add_each-IsStored path filter m z =
      let (w, bs, pending, e, s, a) = add_each-from (new_writer path filter) [] [] m (fresh z) in
      (w, bs, pending, e, s, a ∙ (unfold all_entries in refl))
    where
      fresh : IsSized filter → IsStored (new_writer path filter) [] []
      fresh z = record {
        file = unfold blocks_bytes in refl;
        buffer = unfold entries_bytes in refl;
        offset = unfold blocks_bytes in refl;
        start = unfold blocks_bytes in refl;
        first = refl;
        index = unfold index_of in refl;
        count = unfold all_entries in refl;
        highest = unfold all_entries in tt;
        sized = z;
        pages = tt;
        page = inl (unfold entries_bytes in omega arith);
      }
