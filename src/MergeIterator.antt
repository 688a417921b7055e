-- ===== src/MergeIterator.antt =====
-- src/storage/dazzle_db/merge_iterator.cpp, and the heap order of merge_iterator.h. A source
-- iterator is what it does to its caller: the entries that it yields, and the error, if any, in
-- which it ends. `std::priority_queue` is a list of which `top` is an element that no other beats.
pub mod Heap
pub mod Pushed
pub mod Passed
pub mod Step
pub mod Winner
pub mod Drain
pub mod Merge
pub mod Failure
mod Tests
use enigma.Prelude.{
  ℕ, zero, suc, ◌+◌, Bool, true, false, Option, none, some, List, [], ◌∷◌, length, ltb, Ordering,
  if◌then◌else◌,
}
use enigma.Error.{Error, Result, ok, err}
use enigma.Storage.{Key, InternalValue, key_ord}

abbrev pub Entry : Type 0
Entry = Key × InternalValue

-- An iterator, seen from its first entry on.
pub record Source : Type 0 where
  pub entries : List Entry
  pub failure : Option Error

-- A source that stands at an entry: the one behind a `HeapEntry`.
pub record Cursor : Type 0 where
  pub key : Key
  pub value : InternalValue
  pub rest : List Entry
  pub failure : Option Error

-- `valid()` and `status()` of a source that stands before the given entries.
pub data Position : Type 0 where
  at : Cursor → Position
  exhausted : Position
  failed : Error → Position

unfoldable pub position : List Entry → Option Error → Position
position [] none = exhausted
position [] (some e) = failed e
position ((k, v) ∷ rest) failure =
    at (record { key = k; value = v; rest = rest; failure = failure })

-- `HeapCompare`: whether `a` has the lower priority.
unfoldable pub heap_compare : Cursor → Cursor → Bool
heap_compare a b = elim (key_ord.cmp a.key b.key) [
  | Ordering.lt ↦ false
  | Ordering.gt ↦ true
  | Ordering.eq ↦ ltb a.value.sequence b.value.sequence
]

-- `heap_.top()` with `heap_.pop()`.
unfoldable pub pop : List Cursor → Option (Cursor × List Cursor)
unfolding heap_compare
pop [] = none
pop (c ∷ cs) = elim (pop cs) [
  | none ↦ some (c, [])
  | some (d, ds) ↦ if heap_compare c d then some (d, c ∷ ds) else some (c, d ∷ ds)
]

pub record MergeIterator : Type 0 where
  pub sources : List Source
  pub heap : List Cursor
  pub error : Option Error
  pub current_key : Key
  pub current_value : InternalValue
  pub valid : Bool

abbrev pub no_value : InternalValue
no_value = record { bytes = []; is_tombstone = false; sequence = 0 }

-- The constructor.
abbrev pub new_iterator : List Source → MergeIterator
new_iterator sources = record {
  sources = sources;
  heap = [];
  error = none;
  current_key = [];
  current_value = no_value;
  valid = false;
}

abbrev pub set_error : Error → MergeIterator → MergeIterator
set_error e m = record m { error = some e; valid = false; heap = [] }

-- `heap_.push` where the source is valid, an error where it has failed.
abbrev pub repush : Position → MergeIterator → MergeIterator
repush (at c) m = record m { heap = c ∷ m.heap }
repush exhausted m = m
repush (failed e) m = set_error e m

unfoldable pub advance_and_repush : Cursor → MergeIterator → MergeIterator
unfolding position
advance_and_repush src m = repush (position src.rest src.failure) m

-- How often the sources on the heap can still be advanced: fuel for the loops.
unfoldable pub heap_size : List Cursor → ℕ
heap_size [] = 0
heap_size (c ∷ cs) = suc (length c.rest + heap_size cs)

-- `while (!heap_.empty() && heap_.top().source_->key() == current_key_)`
unfoldable pub deduplicate : ℕ → MergeIterator → MergeIterator
unfolding pop advance_and_repush
deduplicate zero m = m
deduplicate (suc fuel) m = elim (pop m.heap) [
  | none ↦ m
  | some (top, heap) ↦ elim (key_ord.cmp top.key m.current_key) [
    | Ordering.eq ↦ deduplicate fuel (advance_and_repush top (record m { heap = heap }))
    | _ ↦ m
  ]
]

unfoldable pub advance_to_winner : MergeIterator → MergeIterator
unfolding deduplicate heap_size
advance_to_winner m = elim (pop m.heap) [
  | none ↦ record m { valid = false }
  | some (top, heap) ↦
      let won = record m {
        valid = true;
        current_key = top.key;
        current_value = top.value;
        heap = heap;
      } in
      let advanced = advance_and_repush top won in deduplicate (heap_size advanced.heap) advanced
]

-- The loop of `seek_to_first` over the sources, which an error ends.
unfoldable pub push_sources : List Source → MergeIterator → MergeIterator
unfolding position
push_sources [] m = m
push_sources (s ∷ ss) m = elim (position s.entries s.failure) [
  | at c ↦ push_sources ss (record m { heap = c ∷ m.heap })
  | exhausted ↦ push_sources ss m
  | failed e ↦ set_error e m
]

unfoldable pub seek_to_first : MergeIterator → MergeIterator
unfolding push_sources advance_to_winner
seek_to_first m =
    let cleared = record m { heap = []; error = none; valid = false; current_value = no_value } in
    let pushed = push_sources m.sources cleared in
    elim pushed.error [ none ↦ advance_to_winner pushed | some e ↦ pushed ]

unfoldable pub next : MergeIterator → MergeIterator
unfolding advance_to_winner
next m = advance_to_winner m

unfoldable pub status : MergeIterator → Result (Unit {0})
status m = elim m.error [ none ↦ ok tt | some e ↦ err e ]
