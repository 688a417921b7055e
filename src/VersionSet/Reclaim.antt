-- ===== src/VersionSet/Reclaim.antt =====
-- Histories of a version set with its readers, and that no file in use is reclaimed.
use enigma.Prelude.{
  ℕ, zero, suc, ◌≤◌, true, false, List, [], ◌∷◌, ◌==◌, if◌then◌else◌, ◌≡◌, ◌≢◌, refl, ◌⊎◌, inl, inr,
  arith, All, Bool-cases,
}
use enigma.Prelude.Ord.{nat_ord}
use enigma.Error.{ok}
use enigma.SortedMap.{SortedMap, same, find, insert}
use enigma.SortedMap.Laws.{find-insert}
use enigma.VersionSet.{
  SstableId, Version, VersionEdit, IdSet, VersionSet, new_version_set, contains, pointers,
  use_count, remove_unused, insert_ids, insert_versions, reclaim, apply,
}

-- The version stands in the list.
abbrev pub Held : Version → List Version → Type 0
Held v [] = ⊥
Held v (w ∷ ws) = (w ≡ v) ⊎ Held v ws

-- `shared_ptr` leaves: one pointer of the readers is given up.
unfoldable pub release : ℕ → List Version → List Version
release n [] = []
release zero (v ∷ vs) = vs
release (suc n) (v ∷ vs) = v ∷ release n vs

-- A version set with the readers that hold versions of it.
pub record System : Type 0 where
  pub set : VersionSet
  pub readers : List Version

pub data Step (s : System) : System → Type 0 where
  get_current : Step s (record s { readers = s.set.current_version ∷ s.readers })
  leave : (n : ℕ) → Step s (record s { readers = release n s.readers })
  edit :
      (address : ℕ) (e : VersionEdit) {reclaimable : List SstableId} {set : VersionSet}
      → apply s.readers address e s.set ≡ ok (reclaimable, set)
      → Step s (record s { set = set })

pub data Reach (first : Version) : System → Type 0 where
  start : Reach first (record { set = new_version_set first; readers = [] })
  later : {s t : System} → Reach first s → Step s t → Reach first t

-- Whatever a reader holds, and the current version, is among the live versions.
pub record IsTracked (s : System) : Type 0 where
  pub current : Held s.set.current_version s.set.live_versions
  pub readers : (v : Version) → Held v s.readers → Held v s.set.live_versions

pointers_of_Held : (v : Version) (vs : List Version) → Held v vs → 1 ≤ pointers v.address vs
unfolding pointers
pointers_of_Held v [] h = absurd h
pointers_of_Held v (w ∷ ws) (inl e) = rw e (ground arith)
pointers_of_Held v (w ∷ ws) (inr h) = omega (arith, pointers_of_Held v ws h)

Held-remove_unused :
    (readers : List Version) (s : VersionSet) (v : Version) (vs : List Version)
    → use_count readers s v ≢ 1
    → Held v vs
    → Held v (remove_unused readers s vs)
unfolding remove_unused
Held-remove_unused readers s v [] n h = h
Held-remove_unused readers s v (w ∷ ws) n (inl e) = elim (Bool-cases (use_count readers s w == 1)) [
  | inl one ↦ absurd (n (rw (← e) ground arith))
  | inr other ↦ rw other (inl e)
]
Held-remove_unused readers s v (w ∷ ws) n (inr h) =
    let rest = Held-remove_unused readers s v ws n h in
    elim (Bool-cases (use_count readers s w == 1)) [
      | inl one ↦ rw one rest
      | inr other ↦ rw other (inr rest)
    ]

-- What a reader or the set itself points to survives the purge.
pub reader-kept :
    (readers : List Version) (s : VersionSet) (v : Version)
    → Held v readers
    → Held v s.live_versions
    → Held v (remove_unused readers s s.live_versions)
reader-kept readers s v r l =
    Held-remove_unused readers s v s.live_versions
      (λ one.
        unfold use_count in
        omega (arith, pointers_of_Held v readers r, pointers_of_Held v s.live_versions l, one))
      l

pub current-kept :
    (readers : List Version) (s : VersionSet)
    → Held s.current_version s.live_versions
    → Held s.current_version (remove_unused readers s s.live_versions)
current-kept readers s l =
    let c = s.current_version in
    Held-remove_unused readers s c s.live_versions
      (λ one.
        unfold use_count in
        omega (
          arith,
          pointers_of_Held c s.live_versions l,
          pointers_of_Held c (c ∷ []) (inl refl),
          one,
        ))
      l

contains-insert :
    (j id : SstableId) (ids : IdSet)
    → contains j (insert id tt ids) ≡ (if same id j then true else contains j ids)
contains-insert j id ids = rw (find-insert id j tt ids, contains) (ground arith)

insert_ids-kept :
    {V : Type 0} (j : SstableId) (files : SortedMap SstableId V) (ids : IdSet)
    → contains j ids ≡ true
    → contains j (insert_ids files ids) ≡ true
unfolding insert_ids
insert_ids-kept j [] ids h = h
insert_ids-kept j ((id, m) ∷ files) ids h =
    insert_ids-kept j files (insert id tt ids) (ground (arith, contains-insert j id ids))

pub insert_ids-new :
    {V : Type 0} (j : SstableId) (files : SortedMap SstableId V) (ids : IdSet)
    → contains j files ≡ true
    → contains j (insert_ids files ids) ≡ true
unfolding insert_ids find
insert_ids-new j [] ids h = cc
insert_ids-new j ((id, m) ∷ files) ids h = ground (
  arith,
  contains-insert j id ids,
  insert_ids-kept j files (insert id tt ids),
  insert_ids-new j files (insert id tt ids),
)

pub insert_versions-kept :
    (j : SstableId) (vs : List Version) (ids : IdSet)
    → contains j ids ≡ true
    → contains j (insert_versions vs ids) ≡ true
unfolding insert_versions
insert_versions-kept j [] ids h = h
insert_versions-kept j (v ∷ vs) ids h =
    insert_versions-kept j vs (insert_ids v.files ids) (insert_ids-kept j v.files ids h)

pub insert_versions-new :
    (j : SstableId) (v : Version) (vs : List Version) (ids : IdSet)
    → Held v vs
    → contains j v.files ≡ true
    → contains j (insert_versions vs ids) ≡ true
unfolding insert_versions
insert_versions-new j v [] ids h c = absurd h
insert_versions-new j v (w ∷ vs) ids (inl e) c =
    insert_versions-kept j vs (insert_ids w.files ids) (insert_ids-new j w.files ids (rw e c))
insert_versions-new j v (w ∷ vs) ids (inr h) c =
    insert_versions-new j v vs (insert_ids w.files ids) h c

-- Every reclaimed id is missing from the given set.
pub reclaim-missing :
    (live_ids pending : IdSet)
    → All (λ id. contains id live_ids ≡ false) (reclaim live_ids pending).0
unfolding reclaim
reclaim-missing live_ids [] = tt
reclaim-missing live_ids ((id, u) ∷ pending) =
    let rest = reclaim-missing live_ids pending in
    elim (Bool-cases (contains id live_ids)) [
      | inl live ↦ rw live rest
      | inr dead ↦ rw dead (dead, rest)
    ]
