-- ===== src/Compaction/Policy.antt =====
-- src/storage/dazzle_db/compaction/compaction_policy.cpp. The sizes of files are compared in
-- floating point, which is a parameter. `std::sort` leaves the order of equal elements open; here
-- they keep theirs.
pub mod Among
pub mod Choice
mod Tests
use enigma.Prelude.{
  ℕ, zero, suc, ◌+◌, Bool, true, false, Option, none, some, List, [], ◌∷◌, ◌++◌, ◌&&◌, length, map,
  ltb, leb, if◌then◌else◌,
}
use enigma.VersionSet.{SstableId, SstableMeta}
use enigma.Compaction.TombstoneGc.{can_drop_tombstones, sort_ids}

pub record CompactionCandidate : Type 0 where
  pub inputs : List SstableId
  pub can_drop_tombstone : Bool

abbrev pub ids : List SstableMeta → List SstableId
ids l = map (λ (m : SstableMeta). m.id) l

-- `FullCompactionPolicy::pick`
unfoldable pub full_pick : List SstableMeta → Option CompactionCandidate
full_pick [] = none
full_pick (m ∷ live) = some (record { inputs = ids (m ∷ live); can_drop_tombstone = true })

-- `std::sort` by a number.
unfoldable pub insert_by {ℓ} : {A : Type ℓ} → (A → ℕ) → A → List A → List A
insert_by key a [] = a ∷ []
insert_by key a (b ∷ l) =
    let rest = insert_by key a l in if ltb (key b) (key a) then b ∷ rest else a ∷ b ∷ l

unfoldable pub sort_by {ℓ} : {A : Type ℓ} → (A → ℕ) → List A → List A
unfolding insert_by
sort_by key [] = []
sort_by key (a ∷ l) = insert_by key a (sort_by key l)

-- What the policy uses of `double`: the conversion of a `uint64_t`, `+`, `*`, `/` and `<=`.
pub record Doubles (D : Type 0) : Type 0 where
  pub of_uint : ℕ → D
  pub plus : D → D → D
  pub times : D → D → D
  pub over : D → D → D
  pub at_most : D → D → Bool

-- The local struct `bucket`.
pub record Bucket (D : Type 0) : Type 0 where
  pub oldest : SstableId
  pub average : D
  pub metas : List SstableMeta

-- `SizeTieredCompactionPolicy`
pub record SizeTiered (D : Type 0) : Type 0 where
  pub min_merge_width : ℕ
  pub max_merge_width : ℕ
  pub bucket_low : D
  pub bucket_high : D

-- The loop over the chosen metas, with how many were pushed.
unfoldable pub take_inputs : ℕ → ℕ → List SstableMeta → List SstableId
take_inputs max_merge_width pushed [] = []
take_inputs max_merge_width pushed (m ∷ ms) =
    let rest = take_inputs max_merge_width (pushed + 1) ms in
    if leb max_merge_width (pushed + 1) then m.id ∷ [] else m.id ∷ rest

module _ {D : Type 0} (d : Doubles D) (policy : SizeTiered D) where
  abbrev pub new_bucket : SstableMeta → Bucket D
  new_bucket m = record { oldest = m.id; average = d.of_uint m.size_bytes; metas = m ∷ [] }

  -- One more file for a bucket, where `sum` is the new sum of sizes.
  abbrev pub join : Bucket D → SstableMeta → D → Bucket D
  join b m sum = record {
    oldest = if ltb m.id b.oldest then m.id else b.oldest;
    average = d.over sum (d.of_uint (length (b.metas ++ (m ∷ []))));
    metas = b.metas ++ (m ∷ []);
  }

  -- The loop over the sorted files, with `current_sum` and the current bucket.
  unfoldable pub fill_buckets : List SstableMeta → D → Bucket D → List (Bucket D)
  fill_buckets [] current_sum current = current ∷ []
  fill_buckets (m ∷ ms) current_sum current =
      let size = d.of_uint m.size_bytes in
      let sum = d.plus current_sum size in
      let joined = fill_buckets ms sum (join current m sum) in
      let split = current ∷ fill_buckets ms size (new_bucket m) in
      if d.at_most (d.times policy.bucket_low current.average) size
        && d.at_most size (d.times policy.bucket_high current.average)
      then joined
      else split

  -- The buckets of at least `min_merge_width_` files.
  unfoldable pub find_buckets : List (Bucket D) → List (Bucket D)
  find_buckets [] = []
  find_buckets (b ∷ bs) =
      let rest = find_buckets bs in
      if leb policy.min_merge_width (length b.metas) then b ∷ rest else rest

  abbrev pub buckets_of : List SstableMeta → List (Bucket D)
  buckets_of [] = []
  buckets_of (m ∷ ms) = fill_buckets ms (d.of_uint m.size_bytes) (new_bucket m)

  -- The candidate from the found buckets, by the age of their oldest file.
  abbrev pub choose : List SstableMeta → List (Bucket D) → Option CompactionCandidate
  choose live [] = none
  choose live (chosen ∷ bs) =
      let inputs =
        take_inputs policy.max_merge_width 0 (sort_by (λ (m : SstableMeta). m.id) chosen.metas) in
      some (record {
        inputs = inputs;
        can_drop_tombstone = can_drop_tombstones (sort_ids (ids live)) inputs;
      })

  -- `SizeTieredCompactionPolicy::pick`
  unfoldable pub pick : List SstableMeta → Option CompactionCandidate
  unfolding fill_buckets find_buckets take_inputs sort_by
  pick live = choose live (
      sort_by (λ (b : Bucket D). b.oldest)
        (find_buckets (buckets_of (sort_by (λ (m : SstableMeta). m.size_bytes) live))))
