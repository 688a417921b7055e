-- ===== src/Compaction/Policy/Among.antt =====
-- What the sorts and the final loop of the policies keep.
use enigma.Prelude.{
  ℕ, suc, ◌+◌, ◌-◌, max, min, List, [], ◌∷◌, ◌++◌, ◌≡◌, refl, ap, ◌⊎◌, inl, inr, arith, length, ltb,
  leb, Bool-cases,
}
use enigma.VersionSet.{SstableId, SstableMeta}
use enigma.Compaction.TombstoneGc.{Listed}
use enigma.Compaction.Policy.{ids, insert_by, sort_by, take_inputs}

-- The element stands in the list.
abbrev pub Among : {A : Type 0} → A → List A → Type 0
Among a [] = ⊥
Among a (b ∷ l) = (a ≡ b) ⊎ Among a l

module _ {A : Type 0} where
  pub Among-of_insert_by :
      (key : A → ℕ) (a b : A) (l : List A) → Among a (insert_by key b l) → (a ≡ b) ⊎ Among a l
  unfolding insert_by
  Among-of_insert_by key a b [] h = h
  Among-of_insert_by key a b (c ∷ l) h = elim (Bool-cases (ltb (key c) (key b))) [
    | inl e ↦
        let h' : Among a (c ∷ insert_by key b l) = rw e at h in
        elim h' [
          | inl x ↦ inr (inl x)
          | inr y ↦ elim (Among-of_insert_by key a b l y) [ inl z ↦ inl z | inr w ↦ inr (inr w) ]
        ]
    | inr e ↦ rw e at h
  ]

  pub Among-of_sort_by : (key : A → ℕ) (a : A) (l : List A) → Among a (sort_by key l) → Among a l
  unfolding sort_by
  Among-of_sort_by key a [] h = h
  Among-of_sort_by key a (b ∷ l) h = elim (Among-of_insert_by key a b (sort_by key l) h) [
    | inl e ↦ inl e
    | inr y ↦ inr (Among-of_sort_by key a l y)
  ]

  pub length-insert_by :
      (key : A → ℕ) (b : A) (l : List A) → length (insert_by key b l) ≡ suc (length l)
  unfolding insert_by
  length-insert_by key b [] = refl
  length-insert_by key b (c ∷ l) = ground (arith, length-insert_by key b l)

  pub length-sort_by : (key : A → ℕ) (l : List A) → length (sort_by key l) ≡ length l
  unfolding sort_by
  length-sort_by key [] = refl
  length-sort_by key (b ∷ l) =
      omega (arith, length-insert_by key b (sort_by key l), length-sort_by key l)

  pub Among-append : (a : A) (l r : List A) → Among a (l ++ r) → Among a l ⊎ Among a r
  Among-append a [] r h = inr h
  Among-append a (b ∷ l) r (inl e) = inl (inl e)
  Among-append a (b ∷ l) r (inr h) = elim (Among-append a l r h) [
    | inl x ↦ inl (inr x)
    | inr y ↦ inr y
  ]

-- The ids of a list of files.
pub Listed-ids :
    (j : SstableId) (l : List SstableMeta)
    → Listed j (ids l)
    → (m : SstableMeta) × (j ≡ m.id) × Among m l
Listed-ids j [] h = absurd h
Listed-ids j (m ∷ l) (inl e) = (m, e, inl refl)
Listed-ids j (m ∷ l) (inr h) = let (n, e, a) = Listed-ids j l h in (n, e, inr a)

pub Listed-of_Among : (m : SstableMeta) (l : List SstableMeta) → Among m l → Listed m.id (ids l)
Listed-of_Among m [] h = absurd h
Listed-of_Among m (n ∷ l) (inl e) = inl (ap (λ (x : SstableMeta). x.id) e)
Listed-of_Among m (n ∷ l) (inr h) = inr (Listed-of_Among m l h)

pub Among-take_inputs :
    (width pushed : ℕ) (j : SstableId) (l : List SstableMeta)
    → Listed j (take_inputs width pushed l)
    → (m : SstableMeta) × (j ≡ m.id) × Among m l
unfolding take_inputs
Among-take_inputs width pushed j [] h = absurd h
Among-take_inputs width pushed j (m ∷ ms) h = elim (Bool-cases (leb width (pushed + 1))) [
  | inl full ↦
      let h' : Listed j (m.id ∷ []) = rw full at h in
      elim h' [ inl e ↦ (m, e, inl refl) | inr x ↦ absurd x ]
  | inr more ↦
      let h' : Listed j (m.id ∷ take_inputs width (pushed + 1) ms) = rw more at h in
      elim h' [
        | inl e ↦ (m, e, inl refl)
        | inr x ↦ let (n, e, a) = Among-take_inputs width (pushed + 1) j ms x in (n, e, inr a)
      ]
]

-- Never more than the width, or one; all the files where they are fewer.
pub length-take_inputs :
    (width pushed : ℕ) (l : List SstableMeta)
    → length (take_inputs width pushed l) ≡ min (length l) (max 1 (width - pushed))
unfolding take_inputs
length-take_inputs width pushed [] = omega arith
length-take_inputs width pushed (m ∷ ms) = ground (arith, length-take_inputs width (pushed + 1) ms)
