-- ===== src/MergeIterator/Heap.antt =====
-- The heap: what it holds, and that its top beats all the rest.
use enigma.Prelude.{
  ℕ, ◌+◌, ◌≤◌, true, false, Option, none, some, List, [], ◌∷◌, length, Ordering, ◌≡◌, refl, ◌⊎◌,
  inl, inr, arith, All, Bool-cases, Option-cases, if◌then◌else◌, ap, suc, subst, sym, ◌∙◌,
}
use mathlib.Core.Path.{subst₂}
use mathlib.Core.Option.{some-injective}
use enigma.Storage.{Key, InternalValue, key_ord}
use enigma.SortedMap.{IsSorted}
use enigma.MergeIterator.{Entry, Cursor, heap_compare, pop, heap_size}

-- The entry stands in the list.
abbrev pub In : Key → InternalValue → List Entry → Type 0
In j v [] = ⊥
In j v ((k, w) ∷ l) = ((k ≡ j) × (w ≡ v)) ⊎ In j v l

abbrev pub entries : Cursor → List Entry
entries c = (c.key, c.value) ∷ c.rest

-- Some source on the heap will still yield the entry.
abbrev pub Has : Key → InternalValue → List Cursor → Type 0
Has j v [] = ⊥
Has j v (c ∷ cs) = In j v (entries c) ⊎ Has j v cs

-- A source that is sorted and does not fail.
pub record IsSound (c : Cursor) : Type 0 where
  pub sorted : IsSorted (entries c)
  pub no_failure : c.failure ≡ none

-- The first comes before the second: a smaller key, or the same key and no older.
abbrev pub Beats : Key → ℕ → Cursor → Type 0
Beats key sequence d =
    (key_ord.cmp key d.key ≡ Ordering.lt) ⊎ ((key ≡ d.key) × (d.value.sequence ≤ sequence))

Beats-trans :
    (c d e : Cursor)
    → Beats c.key c.value.sequence d
    → Beats d.key d.value.sequence e
    → Beats c.key c.value.sequence e
Beats-trans c d e h k = ground (arith, key_ord.lt_trans c.key d.key e.key)

Beats-trans_each :
    (c d : Cursor) (cs : List Cursor)
    → Beats c.key c.value.sequence d
    → All (Beats d.key d.value.sequence) cs
    → All (Beats c.key c.value.sequence) cs
Beats-trans_each c d [] h a = tt
Beats-trans_each c d (e ∷ cs) h a = (Beats-trans c d e h a.0, Beats-trans_each c d cs h a.1)

heap_compare-true : (c d : Cursor) → heap_compare c d ≡ true → Beats d.key d.value.sequence c
unfolding heap_compare
heap_compare-true c d h =
    ground (arith, key_ord.lt_of_gt c.key d.key, key_ord.eq_of_cmp c.key d.key)

heap_compare-false : (c d : Cursor) → heap_compare c d ≡ false → Beats c.key c.value.sequence d
unfolding heap_compare
heap_compare-false c d h = ground (arith, key_ord.eq_of_cmp c.key d.key)

-- What a pop returns: a source that beats the rest, and between them all that was there.
pub record Popped (heap : List Cursor) (top : Cursor) (rest : List Cursor) : Type 1 where
  pub beats : All (Beats top.key top.value.sequence) rest
  pub each : (P : Cursor → Type 0) → All P heap → P top × All P rest
  pub kept : (j : Key) (v : InternalValue) → Has j v heap → In j v (entries top) ⊎ Has j v rest
  pub from : (j : Key) (v : InternalValue) → In j v (entries top) ⊎ Has j v rest → Has j v heap
  pub size : heap_size heap ≡ suc (length top.rest + heap_size rest)

pub pop-none : (heap : List Cursor) → pop heap ≡ none → heap ≡ []
unfolding pop
pop-none [] h = refl
pop-none (c ∷ cs) h = ground arith

Popped-alone : (c : Cursor) → Popped (c ∷ []) c []
unfolding heap_size
Popped-alone c = record {
  beats = tt;
  each = λ P a. (a.0, tt);
  kept = λ j v h. h;
  from = λ j v h. h;
  size = refl;
}

-- The new element stays below the top of the others.
Popped-below :
    (c : Cursor) {cs : List Cursor} {d : Cursor} {ds : List Cursor}
    → Popped cs d ds
    → heap_compare c d ≡ true
    → Popped (c ∷ cs) d (c ∷ ds)
unfolding heap_size
Popped-below c {d = d} {ds = ds} p h = record {
  beats = (heap_compare-true c d h, p.beats);
  each = λ P a. let (top, rest) = p.each P a.1 in (top, (a.0, rest));
  kept = λ j v. elim [
    | inl x ↦ inr (inl x)
    | inr y ↦ elim (p.kept j v y) [ inl t ↦ inl t | inr r ↦ inr (inr r) ]
  ];
  from = λ j v. elim [
    | inl t ↦ inr (p.from j v (inl t))
    | inr y ↦ elim y [ inl x ↦ inl x | inr r ↦ inr (p.from j v (inr r)) ]
  ];
  size = omega (arith, p.size);
}

-- The new element becomes the top.
Popped-above :
    (c : Cursor) {cs : List Cursor} {d : Cursor} {ds : List Cursor}
    → Popped cs d ds
    → heap_compare c d ≡ false
    → Popped (c ∷ cs) c (d ∷ ds)
unfolding heap_size
Popped-above c {d = d} {ds = ds} p h = record {
  beats = let b = heap_compare-false c d h in (b, Beats-trans_each c d ds b p.beats);
  each = λ P a. (a.0, p.each P a.1);
  kept = λ j v. elim [ inl x ↦ inl x | inr y ↦ inr (p.kept j v y) ];
  from = λ j v. elim [ inl x ↦ inl x | inr y ↦ inr (p.from j v y) ];
  size = omega (arith, p.size);
}

Popped-eq :
    {heap : List Cursor} {c : Cursor} {cs : List Cursor} {top : Cursor} {rest : List Cursor}
    → ◌≡◌ {A = Option (Cursor × List Cursor)} (some (c, cs)) (some (top, rest))
    → Popped heap c cs
    → Popped heap top rest
Popped-eq {heap} e p =
    let f = some-injective _ _ e in subst₂ (Popped heap) (ap (λ x. x.0) f) (ap (λ x. x.1) f) p

-- `pop` on one more element.
pop_cons :
    (c : Cursor) (cs : List Cursor) {d : Cursor} {ds : List Cursor}
    → pop cs ≡ some (d, ds)
    → pop (c ∷ cs) ≡ (if heap_compare c d then some (d, c ∷ ds) else some (c, d ∷ ds))
pop_cons c cs e = unfold pop in rw (e, pop)

pop_last : (c : Cursor) (cs : List Cursor) → pop cs ≡ none → pop (c ∷ cs) ≡ some (c, [])
pop_last c cs e = unfold pop in rw (e, pop)

pub pop-Popped :
    (heap : List Cursor) {top : Cursor} {rest : List Cursor}
    → pop heap ≡ some (top, rest)
    → Popped heap top rest
pop-Popped [] h = unfold pop in cc
pop-Popped (c ∷ cs) h = elim (Option-cases (pop cs)) [
  | inl e ↦
      Popped-eq (sym (pop_last c cs e) ∙ h)
        (subst (λ l. Popped (c ∷ l) c []) (sym (pop-none cs e)) (Popped-alone c))
  | inr ((d, ds), e) ↦ elim (Bool-cases (heap_compare c d)) [
    | inl lower ↦
        Popped-eq (sym (pop_cons c cs e ∙ rw lower) ∙ h) (Popped-below c (pop-Popped cs e) lower)
    | inr higher ↦
        Popped-eq (sym (pop_cons c cs e ∙ rw higher) ∙ h) (Popped-above c (pop-Popped cs e) higher)
  ]
]
