-- ===== src/MergeIterator/Step.antt =====
-- The loop that passes over the winner's key in every source (`deduplicate`).
use enigma.Prelude.{
  ℕ, zero, suc, ◌≤◌, none, some, List, [], ◌∷◌, Ordering, ◌≡◌, ◌⊎◌, inl, inr, arith, All,
  Option-cases, ap, sym, ◌∙◌, subst,
}
use enigma.Storage.{Key, InternalValue, key_ord}
use enigma.MergeIterator.{Cursor, MergeIterator, pop, heap_size, advance_and_repush, deduplicate}
use enigma.MergeIterator.Heap.{In, entries, Has, IsSound, Beats, pop-none, pop-Popped}
use enigma.MergeIterator.Pushed.{pushed, advance-pushed, size-pushed, IsSound-pushed, Beats-pushed}
use enigma.MergeIterator.Passed.{
  Passed, SameButHeap, entries-beyond, Has-beyond, SameButHeap-refl, Passed-stop, Passed-advance,
}

pub deduplicate_empty :
    (fuel : ℕ) (m : MergeIterator) → pop m.heap ≡ none → deduplicate (suc fuel) m ≡ m
deduplicate_empty fuel m e = unfold deduplicate in rw (e, deduplicate)

pub deduplicate_beyond :
    (fuel : ℕ) (m : MergeIterator) {top : Cursor} {rest : List Cursor}
    → pop m.heap ≡ some (top, rest)
    → key_ord.cmp top.key m.current_key ≡ Ordering.gt
    → deduplicate (suc fuel) m ≡ m
deduplicate_beyond fuel m e o = unfold deduplicate in rw (e, o, deduplicate)

pub deduplicate_same :
    (fuel : ℕ) (m : MergeIterator) {top : Cursor} {rest : List Cursor}
    → pop m.heap ≡ some (top, rest)
    → key_ord.cmp top.key m.current_key ≡ Ordering.eq
    → deduplicate (suc fuel) m
      ≡ deduplicate fuel (advance_and_repush top (record m { heap = rest }))
deduplicate_same fuel m e o = unfold deduplicate in rw (e, o, deduplicate)

pub Has-none_of_size :
    (heap : List Cursor) (j : Key) (v : InternalValue) → heap_size heap ≤ 0 → ¬ Has j v heap
unfolding heap_size
Has-none_of_size [] j v h x = x
Has-none_of_size (c ∷ cs) j v h x = absurd (omega arith)

pub order_of_beaten :
    (key : Key) (sequence : ℕ) (c : Cursor)
    → Beats key sequence c
    → ((key_ord.cmp c.key key ≡ Ordering.eq) × (c.key ≡ key) × (c.value.sequence ≤ sequence))
      ⊎ ((key_ord.cmp c.key key ≡ Ordering.gt) × (key_ord.cmp key c.key ≡ Ordering.lt))
order_of_beaten key sequence c (inl lt) = inr (key_ord.gt_of_lt key c.key lt, lt)
order_of_beaten key sequence c (inr e) = inl (rw e.0 (key_ord.cmp_refl c.key), sym e.0, e.1)

-- The result of `deduplicate` on `m`.
abbrev pub Deduplicated : MergeIterator → MergeIterator → Type 0
Deduplicated m m' = Passed m.current_key m.current_value.sequence m.heap m'.heap × SameButHeap m m'

-- `deduplicate`, with the winner's key and value current and no source ahead of them.
pub deduplicate_lem :
    (fuel : ℕ) (m : MergeIterator)
    → heap_size m.heap ≤ fuel
    → All IsSound m.heap
    → All (Beats m.current_key m.current_value.sequence) m.heap
    → Deduplicated m (deduplicate fuel m)
deduplicate_lem zero m few s b =
    unfold deduplicate in
    (
      Passed-stop _ _ m.heap (λ j v h. absurd (Has-none_of_size m.heap j v few h)) s,
      SameButHeap-refl m,
    )
deduplicate_lem (suc fuel) m few s b = elim (Option-cases (pop m.heap)) [
  | inl e ↦
      let empty : (j : Key) (v : InternalValue)
          → Has j v m.heap
          → key_ord.cmp m.current_key j ≡ Ordering.lt =
        λ j v h. absurd (subst (λ l. Has j v l) (pop-none m.heap e) h) in
      subst (Deduplicated m) (sym (deduplicate_empty fuel m e))
        (Passed-stop _ _ m.heap empty s, SameButHeap-refl m)
  | inr ((top, rest), e) ↦
      let p = pop-Popped m.heap e in
      let (s0, ss) = p.each IsSound s in
      let (b0, bs) = p.each (Beats m.current_key m.current_value.sequence) b in
      elim (order_of_beaten m.current_key m.current_value.sequence top b0) [
        | inl (same, e', older) ↦
            let advanced = record m { heap = pushed top.rest top.failure rest } in
            let ih =
              deduplicate_lem fuel advanced
                (omega (arith, p.size, size-pushed top.rest top.failure rest))
                (IsSound-pushed top rest s0 ss)
                (Beats-pushed top rest m.current_key m.current_value.sequence (sym e') s0 bs) in
            subst (Deduplicated m)
              (sym (
                deduplicate_same fuel m e same
                ∙ ap (deduplicate fuel)
                    (advance-pushed top (record m { heap = rest }) s0.no_failure)))
              (
                Passed-advance m.current_key m.current_value.sequence p e' older ih.0,
                record {
                  key = ih.1.key;
                  value = ih.1.value;
                  valid = ih.1.valid;
                  error = ih.1.error;
                },
              )
        | inr (gt, lt) ↦
            let past : (j : Key) (v : InternalValue)
                → Has j v m.heap
                → key_ord.cmp m.current_key j ≡ Ordering.lt =
              λ j v h. all_beyond top rest j v lt s0 ss p.beats (p.kept j v h) in
            subst (Deduplicated m) (sym (deduplicate_beyond fuel m e gt))
              (Passed-stop _ _ m.heap past s, SameButHeap-refl m)
      ]
]
  where
    all_beyond :
        (c : Cursor) (cs : List Cursor) (j : Key) (v : InternalValue)
        → key_ord.cmp m.current_key c.key ≡ Ordering.lt
        → IsSound c
        → All IsSound cs
        → All (Beats c.key c.value.sequence) cs
        → In j v (entries c) ⊎ Has j v cs
        → key_ord.cmp m.current_key j ≡ Ordering.lt
    all_beyond c cs j v h s0 ss bs (inl x) = entries-beyond m.current_key c j v h s0 x
    all_beyond c cs j v h s0 ss bs (inr y) = Has-beyond m.current_key c cs j v h ss bs y
