-- ===== src/MergeIterator/Tests.antt =====
-- Runs of the merge, and its theorems at concrete inputs.
use enigma.Prelude.{ℕ, false, none, some, List, [], ◌∷◌, ◌≡◌, refl, suc}
use enigma.Prelude.Ord.{compare_bytes}
use enigma.Error.{Error, error, close_err}
use enigma.Storage.{InternalValue}
use enigma.MergeIterator.{
  Entry, Source, Cursor, MergeIterator, new_iterator, seek_to_first, next, pop, advance_to_winner,
  push_sources, heap_compare, position, heap_size, deduplicate, advance_and_repush,
}
use enigma.MergeIterator.Drain.{drain}
use enigma.MergeIterator.Merge.{entry_count, IsMergeOf, drain-seek_to_first}
use enigma.MergeIterator.Failure.{IsStuck, advance_to_winner-failed}

abbrev written : ℕ → InternalValue
written sequence = record { bytes = []; is_tombstone = false; sequence = sequence }

abbrev two_sources : List Source
two_sources =
    record { entries = (1 ∷ [], written 4) ∷ (3 ∷ [], written 5) ∷ []; failure = none }
    ∷ record { entries = (1 ∷ [], written 6) ∷ (2 ∷ [], written 3) ∷ []; failure = none }
    ∷ []

merged :
    drain 5 (seek_to_first (new_iterator two_sources))
    ≡ some ((1 ∷ [], written 6) ∷ (2 ∷ [], written 3) ∷ (3 ∷ [], written 5) ∷ [])
unfolding drain seek_to_first push_sources advance_to_winner next pop heap_compare position
    heap_size deduplicate advance_and_repush compare_bytes
merged = refl

drain-seek_to_first_example :
    (out : List Entry) × (drain
        (suc (entry_count two_sources))
        (seek_to_first (new_iterator two_sources))
      ≡ some out)
    × IsMergeOf two_sources out
unfolding compare_bytes
drain-seek_to_first_example = drain-seek_to_first two_sources (
  record { sorted = ((refl, tt), (tt, tt)); no_failure = refl },
  (record { sorted = ((refl, tt), (tt, tt)); no_failure = refl }, tt),
)

abbrev broken : Error
broken = error close_err "bad block"

abbrev last_entry : Cursor
last_entry = record { key = 1 ∷ []; value = written 4; rest = []; failure = some broken }

abbrev about_to_fail : MergeIterator
about_to_fail = record (new_iterator []) { heap = last_entry ∷ [] }

advance_to_winner-failed_example : IsStuck (advance_to_winner about_to_fail) broken
unfolding pop
advance_to_winner-failed_example = advance_to_winner-failed about_to_fail broken refl refl refl
