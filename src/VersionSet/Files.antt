-- ===== src/VersionSet/Files.antt =====
-- Which files the version that `apply` makes has, and that an edit that removes files applies once.
use enigma.Prelude.{
  ℕ, Bool, true, false, Option, none, some, List, [], ◌∷◌, ◌≡◌, refl, sym, ap, ◌∙◌, arith,
  Bool-cases, if◌then◌else◌, inl, inr,
}
use enigma.Prelude.Ord.{nat_ord}
use enigma.Error.{ok, err, error, stale_version, ok-injective}
use enigma.SortedMap.{SortedMap, same, find, insert, erase, IsSorted}
use enigma.SortedMap.Laws.{find-insert, find-erase, insert-IsSorted, erase-IsSorted}
use enigma.VersionSet.{
  SstableId, SstableMeta, Version, VersionEdit, VersionSet, all_present, erase_all, add_all,
  purge_obsolete_files, published, apply,
}
use enigma.VersionSet.Safety.{edited, apply-present}

-- The last of the added files with the id, or what was there.
unfoldable pub last_added : SstableId → List SstableMeta → Option SstableMeta → Option SstableMeta
last_added j [] before = before
last_added j (m ∷ ms) before = last_added j ms (if same m.id j then some m else before)

unfoldable pub is_removed : SstableId → List SstableId → Bool
is_removed j [] = false
is_removed j (id ∷ ids) = let rest = is_removed j ids in if same id j then true else rest

erase_all-IsSorted :
    (ids : List SstableId) (files : SortedMap SstableId SstableMeta)
    → IsSorted files
    → IsSorted (erase_all ids files)
unfolding erase_all
erase_all-IsSorted [] files s = s
erase_all-IsSorted (id ∷ ids) files s =
    erase_all-IsSorted ids (erase id files) (erase-IsSorted id files s)

add_all-IsSorted :
    (ms : List SstableMeta) (files : SortedMap SstableId SstableMeta)
    → IsSorted files
    → IsSorted (add_all ms files)
unfolding add_all
add_all-IsSorted [] files s = s
add_all-IsSorted (m ∷ ms) files s =
    add_all-IsSorted ms (insert m.id m files) (insert-IsSorted m.id m files s)

find-erase_all :
    (j : SstableId) (ids : List SstableId) (files : SortedMap SstableId SstableMeta)
    → IsSorted files
    → find j (erase_all ids files) ≡ (if is_removed j ids then none else find j files)
unfolding erase_all is_removed
find-erase_all j [] files s = refl
find-erase_all j (id ∷ ids) files s = ground (
  arith,
  find-erase_all j ids (erase id files) (erase-IsSorted id files s),
  find-erase id j files s,
)

find-add_all :
    (j : SstableId) (ms : List SstableMeta) (files : SortedMap SstableId SstableMeta)
    → find j (add_all ms files) ≡ last_added j ms (find j files)
unfolding add_all last_added
find-add_all j [] files = refl
find-add_all j (m ∷ ms) files =
    find-add_all j ms (insert m.id m files) ∙ ap (last_added j ms) (find-insert m.id j m files)

pub purge-current :
    (readers : List Version) (s : VersionSet)
    → (purge_obsolete_files readers s).1.current_version ≡ s.current_version
purge-current readers s = unfold purge_obsolete_files in refl

-- Where `apply` succeeds, the new version is the one that the edit makes.
pub current-apply :
    (readers : List Version) (address : ℕ) (e : VersionEdit) (s : VersionSet) {ids : List SstableId}
    {set : VersionSet}
    → apply readers address e s ≡ ok (ids, set)
    → set.current_version ≡ edited address e s
current-apply readers address e s {ids} {set} h =
    elim (Bool-cases (all_present s.current_version.files e.removed)) [
      | inl present ↦
          let r = ok-injective (sym (apply-present readers address e s present) ∙ h) in
          ap (λ (x : List SstableId × VersionSet). x.1.current_version) (sym r)
          ∙ purge-current readers (published s (edited address e s) e.removed)
      | inr stale ↦ absurd (unfold apply in ground arith)
    ]

-- After an edit was applied to a version with its files sorted by id, the current version's files
-- are sorted, and a look-up finds the last file added under the id, else nothing where the edit
-- removes the id, else what the version before had.
pub find-apply :
    (readers : List Version) (address : ℕ) (e : VersionEdit) (s : VersionSet) (ids : List SstableId)
    (set : VersionSet) (j : SstableId)
    → IsSorted s.current_version.files
    → apply readers address e s ≡ ok (ids, set)
    → IsSorted set.current_version.files
      × (find j set.current_version.files
          ≡ last_added j e.added
              (if is_removed j e.removed then none else find j s.current_version.files))
find-apply readers address e s ids set j sorted h = rw (current-apply readers address e s h) (
  add_all-IsSorted e.added (erase_all e.removed s.current_version.files)
      (erase_all-IsSorted e.removed s.current_version.files sorted),
  find-add_all j e.added (erase_all e.removed s.current_version.files)
      ∙ ap (last_added j e.added) (find-erase_all j e.removed s.current_version.files sorted),
)

all_present-missing :
    (files : SortedMap SstableId SstableMeta) (j : SstableId) (ids : List SstableId)
    → find j files ≡ none
    → is_removed j ids ≡ true
    → all_present files ids ≡ false
unfolding all_present is_removed
all_present-missing files j [] h k = cc
all_present-missing files j (id ∷ ids) h k =
    ground (arith, all_present-missing files j ids, nat_ord.eq_of_cmp id j)

-- Once an edit that removes a file and does not add it again was applied, every edit that removes
-- that file is refused as stale, whatever readers there are.
pub apply-consumed :
    (readers readers' : List Version) (address address' : ℕ) (e e' : VersionEdit) (s : VersionSet)
    (ids : List SstableId) (set : VersionSet) (j : SstableId)
    → IsSorted s.current_version.files
    → apply readers address e s ≡ ok (ids, set)
    → is_removed j e.removed ≡ true
    → last_added j e.added none ≡ none
    → is_removed j e'.removed ≡ true
    → apply readers' address' e' set ≡ err (error stale_version "VersionEdit already consumed")
apply-consumed readers readers' address address' e e' s ids set j sorted h removed not_added again =
    let gone : find j set.current_version.files ≡ none =
      (find-apply readers address e s ids set j sorted h).1 ∙ rw removed not_added in
    unfold apply in rw (all_present-missing set.current_version.files j e'.removed gone again)
