-- ===== src/Engine/Lookup/Shadow.antt =====
-- A compaction of some of the tables: its output is searched first, whatever its age.
use enigma.Prelude.{
  ℕ, ◌<◌, true, none, some, refl, Option, List, [], ◌∷◌, ◌++◌, ◌≡◌, ◌≢◌, sym, ◌∙◌, ap, arith,
}
use mathlib.Core.List.{reverse, reverse_aux}
use enigma.Error.{Result, ok}
use enigma.Io.{after}
use enigma.Storage.{Key, InternalValue}
use enigma.VersionSet.{
  SstableId, SstableMeta, Version, VersionEdit, VersionSet, contains, apply, add_all, erase_all,
}
use enigma.VersionSet.Files.{current-apply}
use enigma.VersionSet.Install.{FileMap, Under, insert-last}
use enigma.Engine.{Services}
use enigma.Engine.Lookup.{or_else, lookup_tables, lookup_internal}
use enigma.Engine.Lookup.Newest.{read_table, lookup_tables-some}

-- The edit of `Dazzle::install`.
abbrev pub replacing : List SstableId → SstableMeta → VersionEdit
replacing inputs meta = record { removed = inputs; added = meta ∷ []; next_sst_id = none }

replaced-files :
    (readers : List Version) (address : ℕ) (inputs : List SstableId) (meta : SstableMeta)
    (s set : VersionSet) (ids : List SstableId)
    → Under meta.id (erase_all inputs s.current_version.files)
    → apply readers address (replacing inputs meta) s ≡ ok (ids, set)
    → set.current_version.files ≡ erase_all inputs s.current_version.files ++ ((meta.id, meta) ∷ [])
replaced-files readers address inputs meta s set ids u e =
    ap (λ (v : Version). v.files) (current-apply readers address (replacing inputs meta) s e)
    ∙ (unfold add_all in insert-last meta.id meta (erase_all inputs s.current_version.files) u)

reverse_aux-last :
    (files acc : FileMap) (f : SstableId × SstableMeta)
    → reverse_aux (files ++ (f ∷ [])) acc ≡ f ∷ reverse_aux files acc
reverse_aux-last [] acc f = refl
reverse_aux-last (g ∷ files) acc f = reverse_aux-last files (g ∷ acc) f

lookup_tables-hit :
    {D R W : Type 0} (t : Services D R W) (key : Key) (id : SstableId) (meta : SstableMeta)
    (files : FileMap) (d d' : D) (v : InternalValue)
    → read_table t id key d ≡ (d', ok (some v))
    → lookup_tables t ((id, meta) ∷ files) key d ≡ (d', ok (some v))
lookup_tables-hit t key id meta files d d' v e =
    lookup_tables-some t key id meta files d
    ∙ ap (λ o. after o (λ found. or_else t found (lookup_tables t files key))) e

-- After an edit that replaces tables by one whose number is above those of all that stay, a look-up of
-- a key that the new table has returns its entry, on any services: where another table of the version
-- has an entry of the key with a higher sequence number, that one is not returned.
pub lookup_internal-shadowed :
    {D R W : Type 0} (t : Services D R W) (readers : List Version) (address : ℕ)
    (inputs : List SstableId) (meta : SstableMeta) (s set : VersionSet) (ids : List SstableId)
    (key : Key) (v w : InternalValue) (j : SstableId) (d d' d1 d2 : D)
    → Under meta.id (erase_all inputs s.current_version.files)
    → apply readers address (replacing inputs meta) s ≡ ok (ids, set)
    → read_table t meta.id key d ≡ (d', ok (some v))
    → contains j set.current_version.files ≡ true
    → read_table t j key d1 ≡ (d2, ok (some w))
    → v.sequence < w.sequence
    → (lookup_internal t set.current_version key d ≡ (d', ok (some v)))
      × ((lookup_internal t set.current_version key d).1 ≢ ok (some w))
lookup_internal-shadowed t readers address inputs meta s set ids key v w j d d' d1 d2 u e hit stays
      newer less =
    let kept = erase_all inputs s.current_version.files in
    let order : reverse set.current_version.files ≡ (meta.id, meta) ∷ reverse kept =
      ap reverse (replaced-files readers address inputs meta s set ids u e)
      ∙ reverse_aux-last kept [] (meta.id, meta) in
    let found : lookup_internal t set.current_version key d ≡ (d', ok (some v)) =
      unfold lookup_internal in
      (ap (λ files. lookup_tables t files key d) order
        ∙ lookup_tables-hit t key meta.id meta (reverse kept) d d' v hit) in
    (
      found,
      λ n.
          let same : ok (some v) ≡ ok (some w) =
            sym (ap (λ (o : _ × Result (Option InternalValue)). o.1) found) ∙ n in
          ground (arith, less),
    )
