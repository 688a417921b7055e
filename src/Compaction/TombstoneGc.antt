-- ===== src/Compaction/TombstoneGc.antt =====
-- src/storage/dazzle_db/compaction/tombstone_gc.cpp, and the sort of ids that it uses.
use enigma.Prelude.{
  ◌<◌, Bool, true, false, List, [], ◌∷◌, ◌++◌, ◌≡◌, refl, ap, sym, subst, ◌⊎◌, inl, inr, ◌||◌,
  arith, All, length, ltb, ◌==◌, Bool-cases, if◌then◌else◌,
}
use enigma.VersionSet.{SstableId}

-- `std::sort` on ids: the rising permutation.
unfoldable pub insert_sorted : SstableId → List SstableId → List SstableId
insert_sorted a [] = a ∷ []
insert_sorted a (b ∷ l) = let rest = insert_sorted a l in if ltb b a then b ∷ rest else a ∷ b ∷ l

unfoldable pub sort_ids : List SstableId → List SstableId
unfolding insert_sorted
sort_ids [] = []
sort_ids (a ∷ l) = insert_sorted a (sort_ids l)

-- `live[i] != inputs_copy[i]` for no `i`.
unfoldable pub same_prefix : List SstableId → List SstableId → Bool
same_prefix live [] = true
same_prefix [] (i ∷ inputs) = false
same_prefix (l ∷ live) (i ∷ inputs) =
    let rest = same_prefix live inputs in if l == i then rest else false

-- `can_drop_tombstones`; its assertion that `live` is sorted is left to the caller.
unfoldable pub can_drop_tombstones : List SstableId → List SstableId → Bool
unfolding sort_ids same_prefix
can_drop_tombstones live inputs =
    if (length inputs == 0) || ltb (length live) (length inputs)
    then false
    else same_prefix live (sort_ids inputs)

-- The id stands in the list.
abbrev pub Listed : SstableId → List SstableId → Type 0
Listed j [] = ⊥
Listed j (i ∷ l) = (j ≡ i) ⊎ Listed j l

-- Strictly rising.
abbrev pub Rises : List SstableId → Type 0
Rises [] = Unit
Rises (a ∷ l) = All (λ b. a < b) l × Rises l

same_prefix-append :
    (live inputs : List SstableId)
    → same_prefix live inputs ≡ true
    → (rest : List SstableId) × (live ≡ inputs ++ rest)
unfolding same_prefix
same_prefix-append live [] h = (live, refl)
same_prefix-append [] (i ∷ inputs) h = cc
same_prefix-append (l ∷ live) (i ∷ inputs) h = elim (Bool-cases (l == i)) [
  | inl e ↦
      let (rest, r) = same_prefix-append live inputs (ground arith) in
      let same : l ≡ i = ground arith in
      (rest, subst (λ x. l ∷ live ≡ x ∷ (inputs ++ rest)) same (ap (λ m. l ∷ m) r))
  | inr e ↦ absurd (ground arith)
]

Listed-insert_sorted :
    (j a : SstableId) (l : List SstableId) → (j ≡ a) ⊎ Listed j l → Listed j (insert_sorted a l)
unfolding insert_sorted
Listed-insert_sorted j a [] h = h
Listed-insert_sorted j a (b ∷ l) h = elim (Bool-cases (ltb b a)) [
  | inl e ↦ rw e (elim h [
    | inl x ↦ inr (Listed-insert_sorted j a l (inl x))
    | inr y ↦ elim y [ inl z ↦ inl z | inr w ↦ inr (Listed-insert_sorted j a l (inr w)) ]
  ])
  | inr e ↦ rw e h
]

Listed-of_insert_sorted :
    (j a : SstableId) (l : List SstableId) → Listed j (insert_sorted a l) → (j ≡ a) ⊎ Listed j l
unfolding insert_sorted
Listed-of_insert_sorted j a [] h = h
Listed-of_insert_sorted j a (b ∷ l) h = elim (Bool-cases (ltb b a)) [
  | inl e ↦
      let h' : Listed j (b ∷ insert_sorted a l) = rw e at h in
      elim h' [
        | inl z ↦ inr (inl z)
        | inr w ↦ elim (Listed-of_insert_sorted j a l w) [ inl x ↦ inl x | inr y ↦ inr (inr y) ]
      ]
  | inr e ↦ rw e at h
]

Listed-sort_ids : (j : SstableId) (l : List SstableId) → Listed j l → Listed j (sort_ids l)
unfolding sort_ids
Listed-sort_ids j [] h = h
Listed-sort_ids j (a ∷ l) (inl e) = Listed-insert_sorted j a (sort_ids l) (inl e)
Listed-sort_ids j (a ∷ l) (inr h) =
    Listed-insert_sorted j a (sort_ids l) (inr (Listed-sort_ids j l h))

Listed-of_sort_ids : (j : SstableId) (l : List SstableId) → Listed j (sort_ids l) → Listed j l
unfolding sort_ids
Listed-of_sort_ids j [] h = h
Listed-of_sort_ids j (a ∷ l) h = elim (Listed-of_insert_sorted j a (sort_ids l) h) [
  | inl e ↦ inl e
  | inr r ↦ inr (Listed-of_sort_ids j l r)
]

Listed-append : (j : SstableId) (l rest : List SstableId) → Listed j l → Listed j (l ++ rest)
Listed-append j [] rest h = absurd h
Listed-append j (a ∷ l) rest (inl e) = inl e
Listed-append j (a ∷ l) rest (inr h) = inr (Listed-append j l rest h)

All-Listed : (a j : SstableId) (l : List SstableId) → All (λ b. a < b) l → Listed j l → a < j
All-Listed a j [] al h = absurd h
All-Listed a j (b ∷ l) al (inl e) = rw e al.0
All-Listed a j (b ∷ l) al (inr h) = All-Listed a j l al.1 h

All-append_rest :
    (a : SstableId) (l rest : List SstableId) → All (λ b. a < b) (l ++ rest) → All (λ b. a < b) rest
All-append_rest a [] rest al = al
All-append_rest a (b ∷ l) rest al = All-append_rest a l rest al.1

-- In a rising list, an id stands in the first part or lies above all of it.
Listed-or_above :
    (j : SstableId) (l rest : List SstableId)
    → Rises (l ++ rest)
    → Listed j (l ++ rest)
    → Listed j l ⊎ ((i : SstableId) → Listed i l → i < j)
Listed-or_above j [] rest r h = inr (λ i x. absurd x)
Listed-or_above j (a ∷ l) rest r (inl e) = inl (inl e)
Listed-or_above j (a ∷ l) rest r (inr h) = elim (Listed-or_above j l rest r.1 h) [
  | inl x ↦ inl (inr x)
  | inr above ↦
      inr (λ i. elim [ inl e ↦ rw e (All-Listed a j (l ++ rest) r.0 h) | inr y ↦ above i y ])
]

-- Where tombstones may be dropped from a compaction among strictly rising live ids, every input is
-- live, and every live id that is no input is larger than all inputs.
pub can_drop_tombstones_oldest :
    (live inputs : List SstableId)
    → Rises live
    → can_drop_tombstones live inputs ≡ true
    → ((i : SstableId) → Listed i inputs → Listed i live)
      × ((j : SstableId)
          → Listed j live
          → Listed j inputs ⊎ ((i : SstableId) → Listed i inputs → i < j))
can_drop_tombstones_oldest live inputs r h =
    let prefix : same_prefix live (sort_ids inputs) ≡ true =
      unfold can_drop_tombstones in ground arith in
    let (rest, e) = same_prefix-append live (sort_ids inputs) prefix in
    let r' : Rises (sort_ids inputs ++ rest) = subst Rises e r in
    (
      λ i x.
          subst (Listed i) (sym e)
            (Listed-append i (sort_ids inputs) rest (Listed-sort_ids i inputs x)),
      λ j x. elim (Listed-or_above j (sort_ids inputs) rest r' (subst (Listed j) e x)) [
        | inl y ↦ inl (Listed-of_sort_ids j inputs y)
        | inr above ↦ inr (λ i z. above i (Listed-sort_ids i inputs z))
      ],
    )
