-- ===== src/MergeIterator/Drain.antt =====
-- The whole merge: what `for (it.seek_to_first(); it.valid(); it.next())` sees.
use enigma.Prelude.{
  ℕ, zero, suc, ◌≤◌, ◌<◌, true, false, Option, none, some, List, [], ◌∷◌, Ordering, ◌≡◌, refl, inl,
  inr, arith, All, Option-cases, ap, sym, subst, if◌then◌else◌,
}
use mathlib.Core.Path.{subst₂}
use enigma.Storage.{Key, InternalValue, key_ord}
use enigma.SortedMap.{Above, IsSorted}
use enigma.MergeIterator.{Entry, Cursor, MergeIterator, pop, heap_size, advance_to_winner, next}
use enigma.MergeIterator.Heap.{In, Has, IsSound, pop-none}
use enigma.MergeIterator.Winner.{Won, advance_to_winner-Won, advance_to_winner-none}

abbrev pub prepend : Entry → Option (List Entry) → Option (List Entry)
prepend e none = none
prepend e (some es) = some (e ∷ es)

-- The entries that the loop sees; `none` means that the fuel ran out.
unfoldable pub drain : ℕ → MergeIterator → Option (List Entry)
drain zero m = none
drain (suc fuel) m =
    let more = drain fuel (next m) in
    if m.valid then prepend (m.current_key, m.current_value) more else some []

-- A stream that merges what the heap still holds.
pub record Merges (heap : List Cursor) (out : List Entry) : Type 0 where
  pub sorted : IsSorted out
  pub from : (j : Key) (v : InternalValue) → In j v out → Has j v heap
  pub newest :
      (j : Key) (u : InternalValue)
      → Has j u heap
      → (v : InternalValue) × In j v out × (u.sequence ≤ v.sequence)

Above-of_In :
    (k : Key) (l : List Entry)
    → ((j : Key) (v : InternalValue) → In j v l → key_ord.cmp k j ≡ Ordering.lt)
    → Above k l
Above-of_In k [] h = tt
Above-of_In k ((j, v) ∷ l) h = (h j v (inl (refl, refl)), Above-of_In k l (λ i w x. h i w (inr x)))

Merges-cons :
    (m m' : MergeIterator) (out : List Entry)
    → Won m m'
    → Merges m'.heap out
    → Merges m.heap ((m'.current_key, m'.current_value) ∷ out)
Merges-cons m m' out w g = record {
  sorted = (Above-of_In m'.current_key out (λ j v x. w.passed.beyond j v (g.from j v x)), g.sorted);
  from = λ j v. elim [
    | inl x ↦ subst₂ (λ a b. Has a b m.heap) x.0 x.1 w.winner
    | inr y ↦ w.passed.from j v (g.from j v y)
  ];
  newest = λ j u h. elim (w.passed.kept j u h) [
    | inl later ↦ let (v, x, le) = g.newest j u later in (v, inr x, le)
    | inr (e, le) ↦ (m'.current_value, inl (sym e, refl), le)
  ];
}

Merges-nil : (heap : List Cursor) → heap ≡ [] → Merges heap []
Merges-nil heap e = record {
  sorted = tt;
  from = λ j v x. absurd x;
  newest = λ j u h. absurd (subst (λ l. Has j u l) e h);
}

drain_end : (fuel : ℕ) (m : MergeIterator) → m.valid ≡ false → drain (suc fuel) m ≡ some []
drain_end fuel m e = unfold drain in rw e

drain_step :
    (fuel : ℕ) (m : MergeIterator) {out : List Entry}
    → m.valid ≡ true
    → drain fuel (advance_to_winner m) ≡ some out
    → drain (suc fuel) m ≡ some ((m.current_key, m.current_value) ∷ out)
drain_step fuel m e h = unfold drain next in rw e (ap (prepend (m.current_key, m.current_value)) h)

pub drain-Merges :
    (fuel : ℕ) (m : MergeIterator)
    → All IsSound m.heap
    → heap_size m.heap < fuel
    → (out : List Entry) × (drain fuel (advance_to_winner m) ≡ some out) × Merges m.heap out
drain-Merges zero m s few = absurd (omega arith)
drain-Merges (suc fuel) m s few = elim (Option-cases (pop m.heap)) [
  | inl e ↦ (
    [],
    drain_end fuel (advance_to_winner m) (rw (advance_to_winner-none m e)),
    Merges-nil m.heap (pop-none m.heap e),
  )
  | inr ((top, rest), e) ↦
      let w = advance_to_winner-Won m s e in
      let m' = advance_to_winner m in
      let (out, run, g) = drain-Merges fuel m' w.passed.sound (omega (arith, w.smaller)) in
      (
        (m'.current_key, m'.current_value) ∷ out,
        drain_step fuel m' w.valid run,
        Merges-cons m m' out w g,
      )
]
