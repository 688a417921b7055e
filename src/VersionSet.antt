-- ===== src/VersionSet.antt =====
-- include/enigmadb/storage/dazzle_db/core: version.h, version_edit.h and version_set.h. A version is
-- shared: the set holds it, and so does every reader that called `get_current`.
pub mod Files
pub mod Reclaim
pub mod Safety
pub mod Install
mod Tests
use enigma.Prelude.{
  ℕ, zero, suc, ◌+◌, Bool, true, false, Option, none, some, List, [], ◌∷◌, ◌++◌, ◌==◌,
  if◌then◌else◌,
}
use enigma.Prelude.Ord.{nat_ord}
use enigma.Error.{Result, ok, err, error, stale_version}
use enigma.SortedMap.{SortedMap, find, insert, erase}

-- `SSTableId` is its number.
abbrev pub SstableId : Type 0
SstableId = ℕ

pub record SstableMeta : Type 0 where
  pub id : SstableId
  pub size_bytes : ℕ
  pub entry_count : ℕ
  pub max_sequence : ℕ

-- A version, with the address by which its shared pointers are told apart.
pub record Version : Type 0 where
  pub address : ℕ
  pub files : SortedMap SstableId SstableMeta

pub record VersionEdit : Type 0 where
  pub removed : List SstableId
  pub added : List SstableMeta
  pub next_sst_id : Option ℕ

-- `std::set<SSTableId>`
abbrev pub IdSet : Type 0
IdSet = SortedMap SstableId (Unit {0})

pub record VersionSet : Type 0 where
  pub current_version : Version
  pub live_versions : List Version
  pub pending_obsolete_ids : IdSet

abbrev pub new_version_set : Version → VersionSet
new_version_set v = record {
  current_version = v;
  live_versions = v ∷ [];
  pending_obsolete_ids = [];
}

abbrev pub contains {ℓ} : {V : Type ℓ} → SstableId → SortedMap SstableId V → Bool
contains id m = elim (find id m) [ none ↦ false | some v ↦ true ]

-- How many shared pointers of a list point to the address.
unfoldable pub pointers : ℕ → List Version → ℕ
pointers a [] = 0
pointers a (v ∷ vs) = (if v.address == a then 1 else 0) + pointers a vs

-- `v.use_count()`, where `readers` are the pointers outside of the set.
unfoldable pub use_count : List Version → VersionSet → Version → ℕ
unfolding pointers
use_count readers s v =
    pointers v.address readers
    + pointers v.address s.live_versions
    + pointers v.address (s.current_version ∷ [])

-- `std::remove_if` with `erase`.
unfoldable pub remove_unused : List Version → VersionSet → List Version → List Version
unfolding use_count
remove_unused readers s [] = []
remove_unused readers s (v ∷ vs) =
    let rest = remove_unused readers s vs in if use_count readers s v == 1 then rest else v ∷ rest

unfoldable pub insert_ids {ℓ} : {V : Type ℓ} → SortedMap SstableId V → IdSet → IdSet
insert_ids [] ids = ids
insert_ids ((id, m) ∷ files) ids = insert_ids files (insert id tt ids)

unfoldable pub insert_versions : List Version → IdSet → IdSet
unfolding insert_ids
insert_versions [] ids = ids
insert_versions (v ∷ vs) ids = insert_versions vs (insert_ids v.files ids)

-- The loop over `pending_obsolete_ids_`: what is reclaimable, and what stays pending.
unfoldable pub reclaim : IdSet → IdSet → List SstableId × IdSet
unfolding find
reclaim live_ids [] = ([], [])
reclaim live_ids ((id, u) ∷ pending) =
    let (reclaimable, rest) = reclaim live_ids pending in
    if contains id live_ids then (reclaimable, (id, u) ∷ rest) else (id ∷ reclaimable, rest)

unfoldable pub purge_obsolete_files : List Version → VersionSet → List SstableId × VersionSet
unfolding remove_unused insert_ids insert_versions reclaim
purge_obsolete_files readers s =
    let live = remove_unused readers s s.live_versions in
    let live_ids = insert_versions live (insert_ids s.current_version.files []) in
    let (reclaimable, pending) = reclaim live_ids s.pending_obsolete_ids in
    (reclaimable, record s { live_versions = live; pending_obsolete_ids = pending })

-- `pending_obsolete_ids_.insert(obsolete_ids.begin(), obsolete_ids.end())`
unfoldable pub add_pending : List SstableId → IdSet → IdSet
add_pending [] pending = pending
add_pending (id ∷ ids) pending = add_pending ids (insert id tt pending)

-- The set before it purges.
abbrev pub published : VersionSet → Version → List SstableId → VersionSet
published s v obsolete_ids = record {
  current_version = v;
  live_versions = s.live_versions ++ (v ∷ []);
  pending_obsolete_ids = add_pending obsolete_ids s.pending_obsolete_ids;
}

unfoldable pub append_version :
    List Version → VersionSet → Version → List SstableId → List SstableId × VersionSet
unfolding purge_obsolete_files add_pending
append_version readers s v obsolete_ids = purge_obsolete_files readers (published s v obsolete_ids)

-- `files().find(id) != files().end()` for every id.
unfoldable pub all_present : SortedMap SstableId SstableMeta → List SstableId → Bool
unfolding find
all_present files [] = true
all_present files (id ∷ ids) =
    let rest = all_present files ids in if contains id files then rest else false

unfoldable pub erase_all :
    List SstableId → SortedMap SstableId SstableMeta → SortedMap SstableId SstableMeta
erase_all [] files = files
erase_all (id ∷ ids) files = erase_all ids (erase id files)

unfoldable pub add_all :
    List SstableMeta → SortedMap SstableId SstableMeta → SortedMap SstableId SstableMeta
add_all [] files = files
add_all (m ∷ ms) files = add_all ms (insert m.id m files)

-- `apply`. The new version is made at `address`.
unfoldable pub apply :
    List Version → ℕ → VersionEdit → VersionSet → Result (List SstableId × VersionSet)
unfolding all_present erase_all add_all append_version
apply readers address edit s =
    if all_present s.current_version.files edit.removed
    then ok (
        append_version readers s
          (record {
            address = address;
            files = add_all edit.added (erase_all edit.removed s.current_version.files);
          })
          edit.removed)
    else err (error stale_version "VersionEdit already consumed")
