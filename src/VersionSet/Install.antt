-- ===== src/VersionSet/Install.antt =====
-- A file added to a version, and one whose number is above those of all others.
use enigma.Prelude.{◌<◌, none, [], ◌∷◌, ◌++◌, ◌≡◌, refl, arith, All}
use enigma.Prelude.Ord.{nat_ord}
use enigma.SortedMap.{SortedMap, insert}
use enigma.VersionSet.{SstableId, SstableMeta, VersionEdit}

abbrev pub FileMap : Type 0
FileMap = SortedMap SstableId SstableMeta

-- Every number of the map is below `id`.
abbrev pub Under : SstableId → FileMap → Type 0
Under id files = All (λ (f : SstableId × SstableMeta). f.0 < id) files

pub insert-last :
    (id : SstableId) (meta : SstableMeta) (files : FileMap)
    → Under id files
    → insert id meta files ≡ files ++ ((id, meta) ∷ [])
unfolding insert
insert-last id meta [] u = refl
insert-last id meta ((j, m) ∷ files) u = ground (arith, insert-last id meta files u.1)

-- The edit that adds one file.
abbrev pub adding : SstableMeta → VersionEdit
adding meta = record { removed = []; added = meta ∷ []; next_sst_id = none }
