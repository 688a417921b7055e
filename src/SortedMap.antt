-- ===== src/SortedMap.antt =====
-- `std::map` as the sources use it: a list of pairs, by rising key. `find`, assignment through
-- `operator[]`, `erase` of a key; `begin()` to `end()` is the list itself.
pub mod Laws
use enigma.Prelude.{Bool, true, false, Option, none, some, List, [], ◌∷◌, Ordering, ◌≡◌, All}
use enigma.Prelude.Ord.{Ord}

abbrev pub SortedMap {ℓ κ} : Type ℓ → Type κ → Type (ℓ ⊔ κ)
SortedMap K V = List (K × V)

module _ {ℓ} {K : Type ℓ} ⦃o : Ord K⦄ where
  -- Equal keys.
  abbrev pub same : K → K → Bool
  same a b = elim (o.cmp a b) [ Ordering.eq ↦ true | _ ↦ false ]

module _ {ℓ κ} {K : Type ℓ} {V : Type κ} ⦃o : Ord K⦄ where
  unfoldable pub find : K → SortedMap K V → Option V
  find q [] = none
  find q ((k, v) ∷ m) = let rest = find q m in elim (o.cmp k q) [ Ordering.eq ↦ some v | _ ↦ rest ]

  -- `m[k] = v`
  unfoldable pub insert : K → V → SortedMap K V → SortedMap K V
  insert k v [] = (k, v) ∷ []
  insert k v ((j, w) ∷ m) = elim (o.cmp k j) [
    | Ordering.lt ↦ (k, v) ∷ (j, w) ∷ m
    | Ordering.eq ↦ (k, v) ∷ m
    | Ordering.gt ↦ (j, w) ∷ insert k v m
  ]

  unfoldable pub erase : K → SortedMap K V → SortedMap K V
  erase k [] = []
  erase k ((j, w) ∷ m) =
      let rest = erase k m in elim (o.cmp k j) [ Ordering.eq ↦ m | _ ↦ (j, w) ∷ rest ]

  -- Every key of the map is above `k`.
  abbrev pub Above : K → SortedMap K V → Type 0
  Above k [] = Unit
  Above k ((j, w) ∷ m) = (o.cmp k j ≡ Ordering.lt) × Above k m

  -- The keys rise strictly.
  abbrev pub IsSorted : SortedMap K V → Type 0
  IsSorted [] = Unit
  IsSorted ((k, v) ∷ m) = Above k m × IsSorted m
