-- ===== src/MergeIterator/Failure.antt =====
-- A source that fails while it is advanced.
use enigma.Prelude.{ℕ, zero, suc, false, some, List, [], ◌≡◌, refl, ap, subst, sym, ◌∙◌, true}
use enigma.Error.{Error, err}
use enigma.MergeIterator.{
  Cursor, MergeIterator, position, pop, set_error, heap_size, advance_and_repush, deduplicate,
  advance_to_winner, next, status,
}
use enigma.MergeIterator.Winner.{run_out, advance_to_winner_top}

-- That many calls of `next`.
unfoldable pub next_times : ℕ → MergeIterator → MergeIterator
next_times zero m = m
next_times (suc n) m = next_times n (next m)

still : (m : MergeIterator) → next m ≡ m → (n : ℕ) → next_times n m ≡ m
unfolding next_times
still m e zero = refl
still m e (suc n) = ap (next_times n) e ∙ still m e n

-- The merge has ended in the error, and no number of calls of `next` changes it.
pub record IsStuck (m : MergeIterator) (e : Error) : Type 0 where
  pub valid : m.valid ≡ false
  pub reports : status m ≡ err e
  pub stays : (n : ℕ) → next_times n m ≡ m

advance_and_repush-failed :
    (top : Cursor) (m : MergeIterator) (e : Error)
    → top.rest ≡ []
    → top.failure ≡ some e
    → advance_and_repush top m ≡ set_error e m
advance_and_repush-failed top m e h f = unfold advance_and_repush position in rw (h, f)

IsStuck-set_error : (m : MergeIterator) (e : Error) → IsStuck (run_out (set_error e m)) e
IsStuck-set_error m e = record {
  valid = unfold deduplicate heap_size in refl;
  reports = unfold status deduplicate heap_size in refl;
  stays =
      still (run_out (set_error e m))
        (unfold next advance_to_winner pop deduplicate heap_size in refl);
}

-- Where the source on the top of the heap fails when it is advanced past the entry that it stands
-- at, `advance_to_winner` leaves the merge invalid with that error, and any number of calls of
-- `next` leave it as it is: the entry, which was read without an error, is not shown.
pub advance_to_winner-failed :
    (m : MergeIterator) {top : Cursor} {rest : List Cursor} (e : Error)
    → pop m.heap ≡ some (top, rest)
    → top.rest ≡ []
    → top.failure ≡ some e
    → IsStuck (advance_to_winner m) e
advance_to_winner-failed m {top} {rest} e p h f =
    let won = record m {
      valid = true;
      current_key = top.key;
      current_value = top.value;
      heap = rest;
    } in
    subst (λ a. IsStuck a e)
      (sym (advance_to_winner_top m p ∙ ap run_out (advance_and_repush-failed top won e h f)))
      (IsStuck-set_error won e)
