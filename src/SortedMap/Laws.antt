-- ===== src/SortedMap/Laws.antt =====
-- The map laws: what a look-up finds after a change, and that the keys stay sorted.
use enigma.Prelude.{none, some, [], ◌∷◌, Ordering, ◌≡◌, refl, arith, if◌then◌else◌}
use enigma.Prelude.Ord.{Ord}
use enigma.SortedMap.{SortedMap, same, find, insert, erase, Above, IsSorted}

module _ {ℓ κ} {K : Type ℓ} {V : Type κ} ⦃o : Ord K⦄ where
  pub find-insert :
      (k j : K) (v : V) (m : SortedMap K V)
      → find j (insert k v m) ≡ (if same k j then some v else find j m)
  unfolding find insert
  find-insert k j v [] = ground arith
  find-insert k j v ((i, w) ∷ m) = ground (
    arith,
    find-insert k j v m,
    o.eq_of_cmp k i,
    o.eq_of_cmp i j,
    o.eq_of_cmp k j,
    o.cmp_refl j,
    o.cmp_refl i,
  )

  Above-insert :
      (b k : K) (v : V) (m : SortedMap K V)
      → o.cmp b k ≡ Ordering.lt
      → Above b m
      → Above b (insert k v m)
  unfolding insert
  Above-insert b k v [] h a = (h, tt)
  Above-insert b k v ((j, w) ∷ m) h a = ground (arith, Above-insert b k v m)

  pub Above-trans : (b k : K) (m : SortedMap K V) → o.cmp b k ≡ Ordering.lt → Above k m → Above b m
  Above-trans b k [] h a = tt
  Above-trans b k ((j, w) ∷ m) h a = (o.lt_trans b k j h a.0, Above-trans b k m h a.1)

  pub insert-IsSorted : (k : K) (v : V) (m : SortedMap K V) → IsSorted m → IsSorted (insert k v m)
  unfolding insert
  insert-IsSorted k v [] s = (tt, tt)
  insert-IsSorted k v ((j, w) ∷ m) s = ground (
    arith,
    insert-IsSorted k v m,
    Above-insert j k v m,
    Above-trans k j m,
    o.lt_of_gt k j,
    o.eq_of_cmp k j,
  )

  pub find-none_of_Above : (k : K) (m : SortedMap K V) → Above k m → find k m ≡ none
  unfolding find
  find-none_of_Above k [] a = refl
  find-none_of_Above k ((j, w) ∷ m) a =
      ground (arith, find-none_of_Above k m, o.eq_of_cmp j k, o.cmp_refl k)

  pub find-erase :
      (k j : K) (m : SortedMap K V)
      → IsSorted m
      → find j (erase k m) ≡ (if same k j then none else find j m)
  unfolding find erase
  find-erase k j [] s = ground arith
  find-erase k j ((i, w) ∷ m) s = ground (
    arith,
    find-erase k j m,
    o.eq_of_cmp k i,
    o.eq_of_cmp i j,
    o.eq_of_cmp k j,
    o.cmp_refl j,
    o.cmp_refl i,
    find-none_of_Above i m,
  )

  Above-erase : (b k : K) (m : SortedMap K V) → Above b m → Above b (erase k m)
  unfolding erase
  Above-erase b k [] a = tt
  Above-erase b k ((j, w) ∷ m) a = ground (arith, Above-erase b k m)

  pub erase-IsSorted : (k : K) (m : SortedMap K V) → IsSorted m → IsSorted (erase k m)
  unfolding erase
  erase-IsSorted k [] s = tt
  erase-IsSorted k ((j, w) ∷ m) s = ground (arith, erase-IsSorted k m, Above-erase j k m)
