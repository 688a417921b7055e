-- ===== src/MergeIterator/Passed.antt =====
-- What the heap has lost when the winner's key was passed over.
use enigma.Prelude.{
  ℕ, ◌≤◌, List, [], ◌∷◌, Ordering, ◌≡◌, refl, ◌⊎◌, inl, inr, arith, All, ap, sym, ◌∙◌,
}
use enigma.Storage.{Key, InternalValue, key_ord}
use enigma.MergeIterator.{Cursor, MergeIterator, heap_size}
use enigma.MergeIterator.Heap.{In, entries, Has, IsSound, Beats, Popped}
use enigma.MergeIterator.Pushed.{pushed, Has-pushed, Has-of_pushed, size-pushed, In-Above}

-- What a step does to the heap, given the key and the sequence number of the winner.
pub record Passed (key : Key) (sequence : ℕ) (before after : List Cursor) : Type 0 where
  pub beyond : (j : Key) (v : InternalValue) → Has j v after → key_ord.cmp key j ≡ Ordering.lt
  pub sound : All IsSound after
  pub kept :
      (j : Key) (v : InternalValue)
      → Has j v before
      → Has j v after ⊎ ((j ≡ key) × (v.sequence ≤ sequence))
  pub from : (j : Key) (v : InternalValue) → Has j v after → Has j v before
  pub size : heap_size after ≤ heap_size before

-- Nothing but the heap changed.
pub record SameButHeap (m m' : MergeIterator) : Type 0 where
  pub key : m'.current_key ≡ m.current_key
  pub value : m'.current_value ≡ m.current_value
  pub valid : m'.valid ≡ m.valid
  pub error : m'.error ≡ m.error

pub entries-beyond :
    (key : Key) (c : Cursor) (j : Key) (v : InternalValue)
    → key_ord.cmp key c.key ≡ Ordering.lt
    → IsSound c
    → In j v (entries c)
    → key_ord.cmp key j ≡ Ordering.lt
entries-beyond key c j v h s (inl x) = rw (← x.0) h
entries-beyond key c j v h s (inr y) =
    key_ord.lt_trans key c.key j h (In-Above j v c.key c.rest s.sorted.0 y)

-- Where a source lies beyond `key` and beats all others, they lie beyond it too.
pub Has-beyond :
    (key : Key) (c : Cursor) (cs : List Cursor) (j : Key) (v : InternalValue)
    → key_ord.cmp key c.key ≡ Ordering.lt
    → All IsSound cs
    → All (Beats c.key c.value.sequence) cs
    → Has j v cs
    → key_ord.cmp key j ≡ Ordering.lt
Has-beyond key c [] j v h ss b x = absurd x
Has-beyond key c (d ∷ cs) j v h ss b (inl x) = entries-beyond key d j v (below b.0) ss.0 x
  where
    below : Beats c.key c.value.sequence d → key_ord.cmp key d.key ≡ Ordering.lt
    below (inl lt) = key_ord.lt_trans key c.key d.key h lt
    below (inr e) = rw (← e.0) h
Has-beyond key c (d ∷ cs) j v h ss b (inr y) = Has-beyond key c cs j v h ss.1 b.1 y

pub SameButHeap-refl : (m : MergeIterator) → SameButHeap m m
SameButHeap-refl m = record { key = refl; value = refl; valid = refl; error = refl }

pub Passed-stop :
    (key : Key) (sequence : ℕ) (heap : List Cursor)
    → ((j : Key) (v : InternalValue) → Has j v heap → key_ord.cmp key j ≡ Ordering.lt)
    → All IsSound heap
    → Passed key sequence heap heap
Passed-stop key sequence heap b s = record {
  beyond = b;
  sound = s;
  kept = λ j v h. inl h;
  from = λ j v h. h;
  size = omega arith;
}

-- One source at the winner's key is advanced.
pub Passed-advance :
    (key : Key) (sequence : ℕ) {heap : List Cursor} {top : Cursor} {rest after : List Cursor}
    → Popped heap top rest
    → top.key ≡ key
    → top.value.sequence ≤ sequence
    → Passed key sequence (pushed top.rest top.failure rest) after
    → Passed key sequence heap after
Passed-advance key sequence {heap} {top} {rest} {after} p e le q = record {
  beyond = q.beyond;
  sound = q.sound;
  kept = λ j v h. elim (p.kept j v h) [
    | inl (inl x) ↦ inr (sym x.0 ∙ e, rw (← ap (λ (w : InternalValue). w.sequence) x.1) le)
    | inl (inr y) ↦ q.kept j v (Has-pushed top.rest top.failure rest j v (inl y))
    | inr r ↦ q.kept j v (Has-pushed top.rest top.failure rest j v (inr r))
  ];
  from = λ j v h. p.from j v (elim (Has-of_pushed top.rest top.failure rest j v (q.from j v h)) [
    | inl y ↦ inl (inr y)
    | inr r ↦ inr r
  ]);
  size = omega (arith, q.size, p.size, size-pushed top.rest top.failure rest);
}
