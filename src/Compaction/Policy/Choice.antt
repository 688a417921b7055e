-- ===== src/Compaction/Policy/Choice.antt =====
-- What the size-tiered policy picks.
use enigma.Prelude.{
  ◌≤◌, max, min, some, List, [], ◌∷◌, ◌≡◌, refl, sym, ◌∙◌, subst, ◌⊎◌, inl, inr, ◌&&◌, arith,
  length, leb, Bool-cases,
}
use mathlib.Core.Option.{some-injective}
use enigma.VersionSet.{SstableId, SstableMeta}
use enigma.Compaction.TombstoneGc.{Listed}
use enigma.Compaction.Policy.{
  CompactionCandidate, ids, sort_by, Doubles, Bucket, SizeTiered, new_bucket, join, fill_buckets,
  find_buckets, buckets_of, choose, pick,
}
use enigma.Compaction.Policy.Among.{
  Among, Among-of_sort_by, length-sort_by, Among-append, Listed-of_Among, Among-take_inputs,
  length-take_inputs,
}

-- The inputs are live, at most `max_merge_width` of them (or one), and no fewer than the smaller of
-- that and `min_merge_width`.
pub record IsChoice {D : Type 0} (policy : SizeTiered D) (live : List SstableMeta)
    (inputs : List SstableId) : Type 0 where
  pub live_only : (j : SstableId) → Listed j inputs → Listed j (ids live)
  pub few : length inputs ≤ max 1 policy.max_merge_width
  pub enough : min policy.min_merge_width (max 1 policy.max_merge_width) ≤ length inputs

module _ {D : Type 0} (d : Doubles D) (policy : SizeTiered D) where
  -- A file of a bucket is one of the files that the loop saw, or of the bucket it began with.
  Among-fill_buckets :
      (ms : List SstableMeta) (sum : D) (current b : Bucket D) (m : SstableMeta)
      → Among b (fill_buckets d policy ms sum current)
      → Among m b.metas
      → Among m current.metas ⊎ Among m ms
  unfolding fill_buckets
  Among-fill_buckets [] sum current b m h a = elim h [
    | inl e ↦ inl (subst (λ (x : Bucket D). Among m x.metas) e a)
    | inr x ↦ absurd x
  ]
  Among-fill_buckets (n ∷ ms) sum current b m h a =
      let size = d.of_uint n.size_bytes in
      elim (Bool-cases (
        d.at_most (d.times policy.bucket_low current.average) size
        && d.at_most size (d.times policy.bucket_high current.average))) [
          | inl near ↦
              let h' : Among b (
                  fill_buckets d policy ms (d.plus sum size)
                    (join d policy current n (d.plus sum size))) =
                rw near at h in
              elim (Among-fill_buckets ms _ _ b m h' a) [
                | inl x ↦ elim (Among-append m current.metas (n ∷ []) x) [
                  | inl y ↦ inl y
                  | inr z ↦ elim z [ inl e ↦ inr (inl e) | inr w ↦ absurd w ]
                ]
                | inr y ↦ inr (inr y)
              ]
          | inr far ↦
              let h' : Among b (current ∷ fill_buckets d policy ms size (new_bucket d policy n)) =
                rw far at h in
              elim h' [
                | inl e ↦ inl (subst (λ (x : Bucket D). Among m x.metas) e a)
                | inr x ↦ elim (Among-fill_buckets ms _ _ b m x a) [
                  | inl y ↦ elim y [ inl e ↦ inr (inl e) | inr w ↦ absurd w ]
                  | inr z ↦ inr (inr z)
                ]
              ]
        ]

  Among-buckets_of :
      (ms : List SstableMeta) (b : Bucket D) (m : SstableMeta)
      → Among b (buckets_of d policy ms)
      → Among m b.metas
      → Among m ms
  Among-buckets_of [] b m h a = absurd h
  Among-buckets_of (n ∷ ms) b m h a = elim (Among-fill_buckets ms _ _ b m h a) [
    | inl x ↦ elim x [ inl e ↦ inl e | inr w ↦ absurd w ]
    | inr y ↦ inr y
  ]

  Among-find_buckets :
      (bs : List (Bucket D)) (b : Bucket D)
      → Among b (find_buckets d policy bs)
      → Among b bs × (policy.min_merge_width ≤ length b.metas)
  unfolding find_buckets
  Among-find_buckets [] b h = absurd h
  Among-find_buckets (c ∷ bs) b h =
      elim (Bool-cases (leb policy.min_merge_width (length c.metas))) [
        | inl wide ↦
            let h' : Among b (c ∷ find_buckets d policy bs) = rw wide at h in
            elim h' [
              | inl e ↦ (inl e, rw e (ground arith))
              | inr x ↦ let (i, w) = Among-find_buckets bs b x in (inr i, w)
            ]
        | inr narrow ↦
            let h' : Among b (find_buckets d policy bs) = rw narrow at h in
            let (i, w) = Among-find_buckets bs b h' in (inr i, w)
      ]

  IsChoice-choose :
      (live : List SstableMeta) (bs : List (Bucket D)) {c : CompactionCandidate}
      → ((b : Bucket D) → Among b bs → (policy.min_merge_width ≤ length b.metas))
      → ((b : Bucket D) (m : SstableMeta) → Among b bs → Among m b.metas → Among m live)
      → choose d policy live bs ≡ some c
      → IsChoice policy live c.inputs
  IsChoice-choose live [] wide inside h = cc
  IsChoice-choose live (b ∷ bs) wide inside h =
      let by_id = λ (m : SstableMeta). m.id in
      let size = length-take_inputs policy.max_merge_width 0 (sort_by by_id b.metas) in
      let same = length-sort_by by_id b.metas in
      subst (λ (x : CompactionCandidate). IsChoice policy live x.inputs) (some-injective _ _ h)
        (record {
          live_only = λ j x.
              let (m, e, a) =
                Among-take_inputs policy.max_merge_width 0 j (sort_by by_id b.metas) x in
              rw e (
                Listed-of_Among m live
                  (inside b m (inl refl) (Among-of_sort_by by_id m b.metas a)));
          few = omega (arith, size);
          enough = omega (arith, size, same, wide b (inl refl));
        })

  pick-choose :
      (live : List SstableMeta)
      → pick d policy live
        ≡ choose d policy live (
            sort_by
              (λ (b : Bucket D). b.oldest)
              (find_buckets d policy
                (buckets_of d policy (sort_by (λ (m : SstableMeta). m.size_bytes) live))))
  pick-choose live = unfold pick in refl

  -- What the size-tiered policy picks are live files: at most `max_merge_width` of them, or one where
  -- that is 0, and no fewer than `min_merge_width` or that number, whatever the floating-point
  -- comparisons say.
  pub pick-IsChoice :
      (live : List SstableMeta) (c : CompactionCandidate)
      → pick d policy live ≡ some c
      → IsChoice policy live c.inputs
  pick-IsChoice live c h =
      let by_size = λ (m : SstableMeta). m.size_bytes in
      let oldest = λ (b : Bucket D). b.oldest in
      let sorted = sort_by by_size live in
      let found = find_buckets d policy (buckets_of d policy sorted) in
      IsChoice-choose live (sort_by oldest found)
        (λ b a.
          (Among-find_buckets (buckets_of d policy sorted) b (Among-of_sort_by oldest b found a)).1)
        (λ b m a x.
          let (i, w) =
            Among-find_buckets (buckets_of d policy sorted) b (Among-of_sort_by oldest b found a) in
          Among-of_sort_by by_size m live (Among-buckets_of sorted b m i x))
        (sym (pick-choose live) ∙ h)
