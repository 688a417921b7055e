-- ===== src/MergeIterator/Merge.antt =====
-- The merge of sorted sources.
use enigma.Prelude.{
  ℕ, suc, ◌+◌, ◌≤◌, Option, none, some, List, [], ◌∷◌, length, ◌≡◌, refl, ◌⊎◌, inl, inr, arith, All,
  ap, ◌∙◌,
}
use enigma.Error.{Error}
use enigma.Storage.{Key, InternalValue, key_ord}
use enigma.SortedMap.{IsSorted}
use enigma.MergeIterator.{
  Entry, Source, Cursor, MergeIterator, heap_size, position, new_iterator, advance_to_winner,
  push_sources, seek_to_first,
}
use enigma.MergeIterator.Heap.{In, Has, IsSound}
use enigma.MergeIterator.Pushed.{pushed, Has-pushed, Has-of_pushed, size-pushed}
use enigma.MergeIterator.Drain.{drain, Merges, drain-Merges}

-- A source in the order of its keys, which ends without an error.
pub record IsWellBehaved (s : Source) : Type 0 where
  pub sorted : IsSorted s.entries
  pub no_failure : s.failure ≡ none

-- Some source yields the entry.
abbrev pub Yields : Key → InternalValue → List Source → Type 0
Yields j v [] = ⊥
Yields j v (s ∷ ss) = In j v s.entries ⊎ Yields j v ss

abbrev pub entry_count : List Source → ℕ
entry_count [] = 0
entry_count (s ∷ ss) = length s.entries + entry_count ss

-- The heap that `push_sources` leaves.
abbrev heap_of : List Source → List Cursor → List Cursor
heap_of [] heap = heap
heap_of (s ∷ ss) heap = heap_of ss (pushed s.entries s.failure heap)

push_sources-heap_of :
    (ss : List Source) (m : MergeIterator)
    → All IsWellBehaved ss
    → push_sources ss m ≡ record m { heap = heap_of ss m.heap }
push_sources-heap_of [] m a = unfold push_sources in refl
push_sources-heap_of (s ∷ ss) m a =
    one s.entries s.failure a.0.no_failure
    ∙ push_sources-heap_of ss (record m { heap = pushed s.entries s.failure m.heap }) a.1
  where
    one :
        (l : List Entry) (failure : Option Error)
        → failure ≡ none
        → push_sources (record { entries = l; failure = failure } ∷ ss) m
          ≡ push_sources ss (record m { heap = pushed l failure m.heap })
    one [] none h = unfold push_sources position in refl
    one [] (some e) h = cc
    one ((k, v) ∷ l) failure h = unfold push_sources position in refl

IsSound-heap_of :
    (ss : List Source) (heap : List Cursor)
    → All IsWellBehaved ss
    → All IsSound heap
    → All IsSound (heap_of ss heap)
IsSound-heap_of [] heap a h = h
IsSound-heap_of (s ∷ ss) heap a h =
    IsSound-heap_of ss (pushed s.entries s.failure heap) a.1 (one s.entries a.0.sorted)
  where
    one : (l : List Entry) → IsSorted l → All IsSound (pushed l s.failure heap)
    one [] o = h
    one ((k, v) ∷ l) o = (record { sorted = o; no_failure = a.0.no_failure }, h)

size-heap_of :
    (ss : List Source) (heap : List Cursor)
    → heap_size (heap_of ss heap) ≡ entry_count ss + heap_size heap
size-heap_of [] heap = omega arith
size-heap_of (s ∷ ss) heap =
    omega (
      arith,
      size-heap_of ss (pushed s.entries s.failure heap),
      size-pushed s.entries s.failure heap,
    )

Has-heap_of :
    (ss : List Source) (heap : List Cursor) (j : Key) (v : InternalValue)
    → Yields j v ss ⊎ Has j v heap
    → Has j v (heap_of ss heap)
Has-heap_of [] heap j v (inl x) = absurd x
Has-heap_of [] heap j v (inr y) = y
Has-heap_of (s ∷ ss) heap j v h = Has-heap_of ss (pushed s.entries s.failure heap) j v (shift h)
  where
    shift :
        Yields j v (s ∷ ss) ⊎ Has j v heap
        → Yields j v ss ⊎ Has j v (pushed s.entries s.failure heap)
    shift (inl (inl x)) = inr (Has-pushed s.entries s.failure heap j v (inl x))
    shift (inl (inr y)) = inl y
    shift (inr z) = inr (Has-pushed s.entries s.failure heap j v (inr z))

Yields-of_Has :
    (ss : List Source) (heap : List Cursor) (j : Key) (v : InternalValue)
    → Has j v (heap_of ss heap)
    → Yields j v ss ⊎ Has j v heap
Yields-of_Has [] heap j v h = inr h
Yields-of_Has (s ∷ ss) heap j v h =
    elim (Yields-of_Has ss (pushed s.entries s.failure heap) j v h) [
      | inl y ↦ inl (inr y)
      | inr z ↦ elim (Has-of_pushed s.entries s.failure heap j v z) [
        | inl x ↦ inl (inl x)
        | inr w ↦ inr w
      ]
    ]

-- The merged stream of the sources.
pub record IsMergeOf (ss : List Source) (out : List Entry) : Type 0 where
  pub sorted : IsSorted out
  pub from : (j : Key) (v : InternalValue) → In j v out → Yields j v ss
  pub newest :
      (j : Key) (u : InternalValue)
      → Yields j u ss
      → (v : InternalValue) × In j v out × (u.sequence ≤ v.sequence)

-- What `seek_to_first` does once the sources are pushed.
abbrev begin : MergeIterator → MergeIterator
begin pushed = elim pushed.error [ none ↦ advance_to_winner pushed | some e ↦ pushed ]

seek_to_first-begin :
    (ss : List Source) → seek_to_first (new_iterator ss) ≡ begin (push_sources ss (new_iterator ss))
seek_to_first-begin ss = unfold seek_to_first in refl

seek_to_first-advance :
    (ss : List Source)
    → All IsWellBehaved ss
    → seek_to_first (new_iterator ss)
      ≡ advance_to_winner (record (new_iterator ss) { heap = heap_of ss [] })
seek_to_first-advance ss a =
    seek_to_first-begin ss ∙ ap begin (push_sources-heap_of ss (new_iterator ss) a)

IsMergeOf-of_Merges :
    (ss : List Source) (out : List Entry) → Merges (heap_of ss []) out → IsMergeOf ss out
IsMergeOf-of_Merges ss out g = record {
  sorted = g.sorted;
  from = λ j v x. elim (Yields-of_Has ss [] j v (g.from j v x)) [ inl y ↦ y | inr z ↦ absurd z ];
  newest = λ j u y. g.newest j u (Has-heap_of ss [] j u (inl y));
}

-- A loop over the merge of sources that are sorted by key and end without an error comes to its
-- end within one round more than they have entries. What it sees is strictly sorted by key, comes
-- from the sources, and has for every entry of a source one of the same key that is no older.
pub drain-seek_to_first :
    (ss : List Source)
    → All IsWellBehaved ss
    → (out : List Entry) × (drain (suc (entry_count ss)) (seek_to_first (new_iterator ss))
        ≡ some out)
      × IsMergeOf ss out
drain-seek_to_first ss a =
    let start = record (new_iterator ss) { heap = heap_of ss [] } in
    let size = size-heap_of ss [] in
    let (out, run, g) =
      drain-Merges (suc (entry_count ss)) start (IsSound-heap_of ss [] a tt)
        (unfold heap_size in omega arith) in
    (
      out,
      ap (drain (suc (entry_count ss))) (seek_to_first-advance ss a) ∙ run,
      IsMergeOf-of_Merges ss out g,
    )
