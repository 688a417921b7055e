-- ===== src/Compaction/Merge.antt =====
-- What a compaction writes.
use enigma.Prelude.{
  ℕ, zero, suc, Bool, true, false, Option, none, some, List, [], ◌∷◌, ◌≡◌, refl, sym, ap, ◌∙◌, ◌&&◌,
  map, All, Bool-cases, if◌then◌else◌, ◌⊎◌, inl, inr,
}
use mathlib.Core.Option.{some-injective}
use enigma.Error.{Error, Result, ok, err, fault, ◌>>=◌}
use enigma.VersionSet.{SstableId}
use enigma.MergeIterator.{
  Entry, Source, MergeIterator, new_iterator, seek_to_first, next, push_sources, position,
}
use enigma.MergeIterator.Drain.{drain, prepend}
use enigma.MergeIterator.Merge.{IsWellBehaved, IsMergeOf, entry_count, drain-seek_to_first}
use enigma.Compaction.{Tables, open_readers, after_add, copy, conclude, compact}

-- The entries that stay: a full compaction leaves out the tombstones.
unfoldable pub kept : Bool → List Entry → List Entry
kept is_full_compaction [] = []
kept is_full_compaction ((k, v) ∷ es) =
    let rest = kept is_full_compaction es in
    if v.is_tombstone && is_full_compaction then rest else (k, v) ∷ rest

drain_end : (fuel : ℕ) (m : MergeIterator) → m.valid ≡ false → drain (suc fuel) m ≡ some []
drain_end fuel m e = unfold drain in rw e

drain-next :
    (fuel : ℕ) (m : MergeIterator)
    → m.valid ≡ true
    → drain (suc fuel) m ≡ prepend (m.current_key, m.current_value) (drain fuel (next m))
drain-next fuel m e = unfold drain in rw e

prepend_inv :
    (e : Entry) (more : Option (List Entry)) {out : List Entry}
    → prepend e more ≡ some out
    → (es : List Entry) × (more ≡ some es) × (out ≡ e ∷ es)
prepend_inv e none h = cc
prepend_inv e (some es) h = (es, refl, sym (some-injective _ _ h))

-- A run of the loop is over at once, or shows an entry and goes on.
drain_cases :
    (fuel : ℕ) (m : MergeIterator) {out : List Entry}
    → drain (suc fuel) m ≡ some out
    → ((m.valid ≡ false) × (out ≡ []))
      ⊎ ((m.valid ≡ true)
          × (es : List Entry) × (drain fuel (next m) ≡ some es)
          × (out ≡ (m.current_key, m.current_value) ∷ es))
drain_cases fuel m {out} h = elim (Bool-cases m.valid) [
  | inl valid ↦
      let (es, run, e) =
        prepend_inv (m.current_key, m.current_value) (drain fuel (next m))
          (sym (drain-next fuel m valid) ∙ h) in
      inr (valid, es, run, e)
  | inr over ↦ inl (over, some-injective _ _ (sym h ∙ drain_end fuel m over))
]

module _ {R W : Type 0} (t : Tables R W) where
  -- Every entry added to the writer, until one cannot be.
  unfoldable pub add_entries : W → List Entry → Result W
  add_entries writer [] = ok writer
  add_entries writer ((k, v) ∷ es) = t.add writer k v >>= λ w. add_entries w es

  after_add-some :
      (r : Result W) (rest : W → Option (Result W)) (g : W → Result W)
      → ((w : W) → rest w ≡ some (g w))
      → after_add t r rest ≡ some (r >>= g)
  after_add-some (ok w) rest g h = h w
  after_add-some (err e) rest g h = refl
  after_add-some fault rest g h = refl

  copy_end :
      (fuel : ℕ) (m : MergeIterator) (full : Bool) (writer : W)
      → m.valid ≡ false
      → copy t (suc fuel) m full writer ≡ some (ok writer)
  copy_end fuel m full writer h = unfold copy in rw h

  copy_skip :
      (fuel : ℕ) (m : MergeIterator) (full : Bool) (writer : W)
      → m.valid ≡ true
      → (m.current_value.is_tombstone && full) ≡ true
      → copy t (suc fuel) m full writer ≡ copy t fuel (next m) full writer
  copy_skip fuel m full writer h k = unfold copy in rw (h, k)

  copy_add :
      (fuel : ℕ) (m : MergeIterator) (full : Bool) (writer : W)
      → m.valid ≡ true
      → (m.current_value.is_tombstone && full) ≡ false
      → copy t (suc fuel) m full writer
        ≡ after_add t
            (t.add writer m.current_key m.current_value)
            (λ w. copy t fuel (next m) full w)
  copy_add fuel m full writer h k = unfold copy in rw (h, k)

  add_entries-kept_first :
      (e : Entry) (es : List Entry) (full : Bool) (writer : W)
      → (e.1.is_tombstone && full) ≡ false
      → add_entries writer (kept full (e ∷ es))
        ≡ (t.add writer e.0 e.1 >>= λ w. add_entries w (kept full es))
  add_entries-kept_first e es full writer k = unfold kept in rw k (unfold add_entries in refl)

  kept_skip :
      (e : Entry) (es : List Entry) (full : Bool)
      → (e.1.is_tombstone && full) ≡ true
      → kept full (e ∷ es) ≡ kept full es
  kept_skip e es full k = unfold kept in rw k

  copy-drain :
      (fuel : ℕ) (m : MergeIterator) (full : Bool) (writer : W) {out : List Entry}
      → drain fuel m ≡ some out
      → copy t fuel m full writer ≡ some (add_entries writer (kept full out))
  unfolding add_entries kept
  copy-drain zero m full writer h = absurd (unfold drain in cc)
  copy-drain (suc fuel) m full writer {out} h = elim (drain_cases fuel m h) [
    | inl (over, e) ↦
        copy_end fuel m full writer over
        ∙ ap (λ l. some (add_entries writer (kept full l))) {x = []} {y = out} (sym e)
    | inr (valid, more, run, e) ↦
        (elim (Bool-cases (m.current_value.is_tombstone && full)) [
          | inl skip ↦
              copy_skip fuel m full writer valid skip
              ∙ copy-drain fuel (next m) full writer run
              ∙ ap (λ l. some (add_entries writer l))
                  (sym (kept_skip (m.current_key, m.current_value) more full skip))
          | inr keep ↦
              copy_add fuel m full writer valid keep
              ∙ after_add-some (t.add writer m.current_key m.current_value) _
                  (λ w. add_entries w (kept full more)) (λ w. copy-drain fuel (next m) full w run)
              ∙ ap some (
                  sym
                    (add_entries-kept_first (m.current_key, m.current_value) more full writer keep))
        ])
        ∙ ap (λ l. some (add_entries writer (kept full l))) (sym e)
  ]

  compact_opened :
      (fuel : ℕ) (inputs : List SstableId) (next_sst_seq : SstableId) (full : Bool)
      (readers : List R) (possible_keys : ℕ) (writer : W)
      → open_readers t inputs 0 ≡ ok (readers, possible_keys)
      → t.create possible_keys ≡ ok writer
      → compact t fuel inputs next_sst_seq full
        ≡ conclude t next_sst_seq
            (copy t fuel (seek_to_first (new_iterator (map t.source readers))) full writer)
  compact_opened fuel inputs next_sst_seq full readers possible_keys writer h k =
      unfold compact in rw (h, k)

  -- A compaction whose inputs open, whose new file opens, and whose inputs are sorted by key and
  -- iterate without an error ends, adds to the new table the merge of the inputs, without the
  -- tombstones where it is a full one, and finishes it. One round more than there are entries is
  -- enough.
  pub compact-IsMergeOf :
      (inputs : List SstableId) (next_sst_seq : SstableId) (full : Bool) (readers : List R)
      (possible_keys : ℕ) (writer : W)
      → open_readers t inputs 0 ≡ ok (readers, possible_keys)
      → t.create possible_keys ≡ ok writer
      → All IsWellBehaved (map t.source readers)
      → (out : List Entry) × IsMergeOf (map t.source readers) out
        × (compact t (suc (entry_count (map t.source readers))) inputs next_sst_seq full
            ≡ conclude t next_sst_seq (some (add_entries writer (kept full out))))
  compact-IsMergeOf inputs next_sst_seq full readers possible_keys writer h k a =
      let ss = map t.source readers in
      let fuel = suc (entry_count ss) in
      let (out, run, merges) = drain-seek_to_first ss a in
      (
        out,
        merges,
        compact_opened fuel inputs next_sst_seq full readers possible_keys writer h k
            ∙ ap (conclude t next_sst_seq)
                (copy-drain fuel (seek_to_first (new_iterator ss)) full writer run),
      )

  seek_to_first-failed :
      (s : Source) (ss : List Source) (e : Error)
      → s.entries ≡ []
      → s.failure ≡ some e
      → (seek_to_first (new_iterator (s ∷ ss))).valid ≡ false
  seek_to_first-failed s ss e h k = unfold seek_to_first push_sources position in rw (h, k)

  -- Where the first input fails on its first read, the compaction still succeeds whenever the new
  -- table can be finished, and nothing is added to that table.
  pub compact-drops_inputs :
      (fuel : ℕ) (inputs : List SstableId) (next_sst_seq : SstableId) (full : Bool) (first : R)
      (readers : List R) (possible_keys : ℕ) (writer : W) (e : Error)
      → open_readers t inputs 0 ≡ ok (first ∷ readers, possible_keys)
      → t.create possible_keys ≡ ok writer
      → (t.source first).entries ≡ []
      → (t.source first).failure ≡ some e
      → compact t (suc fuel) inputs next_sst_seq full ≡ conclude t next_sst_seq (some (ok writer))
  compact-drops_inputs fuel inputs next_sst_seq full first readers possible_keys writer e h k l f =
      compact_opened (suc fuel) inputs next_sst_seq full (first ∷ readers) possible_keys writer h k
      ∙ ap (conclude t next_sst_seq) (
          copy_end fuel (seek_to_first (new_iterator (map t.source (first ∷ readers)))) full writer
            (seek_to_first-failed (t.source first) (map t.source readers) e l f))
