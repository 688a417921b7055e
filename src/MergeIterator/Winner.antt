-- ===== src/MergeIterator/Winner.antt =====
-- One step of the merge (`advance_to_winner`): the winner's key is passed over in every source,
-- and nothing else is.
use enigma.Prelude.{
  ◌<◌, true, false, none, some, List, ◌≡◌, refl, inl, arith, All, ap, sym, ◌∙◌, subst,
}
use enigma.Storage.{key_ord}
use enigma.MergeIterator.{
  Cursor, MergeIterator, pop, heap_size, advance_and_repush, deduplicate, advance_to_winner,
}
use enigma.MergeIterator.Heap.{Has, IsSound, pop-Popped}
use enigma.MergeIterator.Pushed.{pushed, advance-pushed, size-pushed, IsSound-pushed, Beats-pushed}
use enigma.MergeIterator.Passed.{Passed, Passed-advance}
use enigma.MergeIterator.Step.{deduplicate_lem}

-- The loop with the fuel that it is given.
abbrev pub run_out : MergeIterator → MergeIterator
run_out m = deduplicate (heap_size m.heap) m

pub advance_to_winner_top :
    (m : MergeIterator) {top : Cursor} {rest : List Cursor}
    → pop m.heap ≡ some (top, rest)
    → advance_to_winner m
      ≡ run_out (
          advance_and_repush top (record m {
            valid = true;
            current_key = top.key;
            current_value = top.value;
            heap = rest;
          }))
advance_to_winner_top m e = unfold advance_to_winner in rw (e, advance_to_winner)

advance_to_winner-pop :
    (m : MergeIterator) {top : Cursor} {rest : List Cursor}
    → pop m.heap ≡ some (top, rest)
    → top.failure ≡ none
    → advance_to_winner m
      ≡ run_out (record m {
        valid = true;
        current_key = top.key;
        current_value = top.value;
        heap = pushed top.rest top.failure rest;
      })
advance_to_winner-pop m {top} {rest} e h =
    advance_to_winner_top m e
    ∙ ap run_out (
        advance-pushed top
          (record m { valid = true; current_key = top.key; current_value = top.value; heap = rest })
          h)

-- `advance_to_winner` on sources of which some still has an entry: the current entry comes from one
-- of them, and every other entry of its key is passed over.
pub record Won (m m' : MergeIterator) : Type 0 where
  pub valid : m'.valid ≡ true
  pub error : m'.error ≡ m.error
  pub winner : Has m'.current_key m'.current_value m.heap
  pub passed : Passed m'.current_key m'.current_value.sequence m.heap m'.heap
  pub smaller : heap_size m'.heap < heap_size m.heap

pub advance_to_winner-Won :
    (m : MergeIterator) {top : Cursor} {rest : List Cursor}
    → All IsSound m.heap
    → pop m.heap ≡ some (top, rest)
    → Won m (advance_to_winner m)
advance_to_winner-Won m {top} {rest} s e =
    let p = pop-Popped m.heap e in
    let (s0, ss) = p.each IsSound s in
    let adv = record m {
      valid = true;
      current_key = top.key;
      current_value = top.value;
      heap = pushed top.rest top.failure rest;
    } in
    let d =
      deduplicate_lem (heap_size adv.heap) adv (omega arith) (IsSound-pushed top rest s0 ss)
        (Beats-pushed top rest top.key top.value.sequence refl s0 p.beats) in
    let same = d.1 in
    let size = size-pushed top.rest top.failure rest in
    subst (Won m) (sym (advance_to_winner-pop m e s0.no_failure)) (record {
      valid = same.valid;
      error = same.error;
      winner = rw (same.key, same.value) (p.from top.key top.value (inl (inl (refl, refl))));
      passed =
          rw (same.key, same.value)
            (Passed-advance top.key top.value.sequence p refl (omega arith) d.0);
      smaller = omega (arith, d.0.size, size, p.size);
    })

pub advance_to_winner-none :
    (m : MergeIterator) → pop m.heap ≡ none → advance_to_winner m ≡ record m { valid = false }
advance_to_winner-none m e = unfold advance_to_winner in rw (e, advance_to_winner)
