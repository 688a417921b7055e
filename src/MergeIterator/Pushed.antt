-- ===== src/MergeIterator/Pushed.antt =====
-- The heap after a source was advanced (`advance_and_repush`).
use enigma.Prelude.{
  ℕ, ◌+◌, Option, none, some, List, [], ◌∷◌, length, Ordering, ◌≡◌, refl, ◌⊎◌, inl, inr, arith, All,
}
use enigma.Error.{Error}
use enigma.Storage.{Key, InternalValue, key_ord}
use enigma.SortedMap.{Above, IsSorted}
use enigma.MergeIterator.{Entry, Cursor, MergeIterator, heap_size, advance_and_repush}
use enigma.MergeIterator.Heap.{In, Has, IsSound, Beats}

-- The heap after a source that stood before `rest` and does not fail was advanced.
abbrev pub pushed : List Entry → Option Error → List Cursor → List Cursor
pushed [] failure heap = heap
pushed ((k, v) ∷ rest) failure heap =
    record { key = k; value = v; rest = rest; failure = failure } ∷ heap

pub advance-pushed :
    (c : Cursor) (m : MergeIterator)
    → c.failure ≡ none
    → advance_and_repush c m ≡ record m { heap = pushed c.rest c.failure m.heap }
unfolding advance_and_repush
advance-pushed c m h = by_rest c.rest c.failure h
  where
    by_rest :
        (rest : List Entry) (failure : Option Error)
        → failure ≡ none
        → advance_and_repush
            (record { key = c.key; value = c.value; rest = rest; failure = failure })
            m
          ≡ record m { heap = pushed rest failure m.heap }
    by_rest [] none h = refl
    by_rest [] (some e) h = cc
    by_rest ((k, v) ∷ rest) failure h = refl

pub Has-pushed :
    (rest : List Entry) (failure : Option Error) (heap : List Cursor) (j : Key) (v : InternalValue)
    → In j v rest ⊎ Has j v heap
    → Has j v (pushed rest failure heap)
Has-pushed [] failure heap j v (inl x) = absurd x
Has-pushed [] failure heap j v (inr y) = y
Has-pushed ((k, w) ∷ rest) failure heap j v h = h

pub Has-of_pushed :
    (rest : List Entry) (failure : Option Error) (heap : List Cursor) (j : Key) (v : InternalValue)
    → Has j v (pushed rest failure heap)
    → In j v rest ⊎ Has j v heap
Has-of_pushed [] failure heap j v h = inr h
Has-of_pushed ((k, w) ∷ rest) failure heap j v h = h

pub size-pushed :
    (rest : List Entry) (failure : Option Error) (heap : List Cursor)
    → heap_size (pushed rest failure heap) ≡ length rest + heap_size heap
unfolding heap_size
size-pushed [] failure heap = omega arith
size-pushed ((k, w) ∷ rest) failure heap = omega arith

pub IsSound-pushed :
    (c : Cursor) (heap : List Cursor)
    → IsSound c
    → All IsSound heap
    → All IsSound (pushed c.rest c.failure heap)
IsSound-pushed c heap s a = by_rest c.rest s.sorted.1
  where
    by_rest : (rest : List Entry) → IsSorted rest → All IsSound (pushed rest c.failure heap)
    by_rest [] o = a
    by_rest ((k, w) ∷ rest) o = (record { sorted = o; no_failure = s.no_failure }, a)

pub Beats-pushed :
    (c : Cursor) (heap : List Cursor) (key : Key) (sequence : ℕ)
    → key ≡ c.key
    → IsSound c
    → All (Beats key sequence) heap
    → All (Beats key sequence) (pushed c.rest c.failure heap)
Beats-pushed c heap key sequence e s a = by_rest c.rest s.sorted.0
  where
    by_rest :
        (rest : List Entry)
        → Above c.key rest
        → All (Beats key sequence) (pushed rest c.failure heap)
    by_rest [] o = a
    by_rest ((k, w) ∷ rest) o = (inl (rw e o.0), a)

-- An entry of a sorted source lies at its current key or beyond.
pub In-Above :
    (j : Key) (v : InternalValue) (k : Key) (l : List Entry)
    → Above k l
    → In j v l
    → key_ord.cmp k j ≡ Ordering.lt
In-Above j v k [] a h = absurd h
In-Above j v k ((i, w) ∷ l) a (inl x) = rw (← x.0) a.0
In-Above j v k ((i, w) ∷ l) a (inr y) = In-Above j v k l a.1 y
