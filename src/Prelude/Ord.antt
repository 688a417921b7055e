-- ===== src/Prelude/Ord.antt =====
-- Three-way comparison with its laws: what `std::map` and `std::sort` rely on in their key type.
-- Byte strings compare lexicographically, as `std::vector<uint8_t>` does (include/enigmadb/storage/key.h).
use Prim.Native.Nat.{ℕ, compare, Ordering}
use Prim.Native.Nat.Ordering.{lt, eq, gt}
use mathlib.Core.Path.{◌≡◌, refl}
use mathlib.Core.List.{List, [], ◌∷◌}
use native.Mathlib.Omega.{arith}

pub record IsLawful {κ} {K : Type κ} (cmp : K → K → Ordering) : Type κ where
  pub lt_trans : (x y z : K) → cmp x y ≡ lt → cmp y z ≡ lt → cmp x z ≡ lt
  pub cmp_refl : (x : K) → cmp x x ≡ eq
  pub gt_of_lt : (x y : K) → cmp x y ≡ lt → cmp y x ≡ gt
  pub eq_of_cmp : (x y : K) → cmp x y ≡ eq → x ≡ y
  pub lt_of_gt : (x y : K) → cmp x y ≡ gt → cmp y x ≡ lt

pub record Ord {κ} (K : Type κ) : Type κ where
  pub cmp : K → K → Ordering
  pub laws : IsLawful cmp
  pub open laws use *

pub nat-IsLawful : IsLawful compare
nat-IsLawful = ground arith

instance abbrev pub nat_ord : Ord ℕ
nat_ord = record { laws = nat-IsLawful; cmp = compare }

-- `std::lexicographical_compare_three_way` on bytes; a proper prefix is smaller.
unfoldable pub compare_bytes : List ℕ → List ℕ → Ordering
compare_bytes [] [] = eq
compare_bytes [] (b ∷ bs) = lt
compare_bytes (a ∷ as') [] = gt
compare_bytes (a ∷ as') (b ∷ bs) =
    let rest = compare_bytes as' bs in elim (compare a b) [ lt ↦ lt | eq ↦ rest | gt ↦ gt ]

bytes-cmp_refl : (a : List ℕ) → compare_bytes a a ≡ eq
unfolding compare_bytes
bytes-cmp_refl [] = refl
bytes-cmp_refl (x ∷ xs) = ground (arith, bytes-cmp_refl xs)

bytes-eq_of_cmp : (a b : List ℕ) → compare_bytes a b ≡ eq → a ≡ b
unfolding compare_bytes
bytes-eq_of_cmp [] [] h = refl
bytes-eq_of_cmp [] (y ∷ ys) h = cc
bytes-eq_of_cmp (x ∷ xs) [] h = cc
bytes-eq_of_cmp (x ∷ xs) (y ∷ ys) h = ground (arith, bytes-eq_of_cmp xs ys)

bytes-lt_of_gt : (a b : List ℕ) → compare_bytes a b ≡ gt → compare_bytes b a ≡ lt
unfolding compare_bytes
bytes-lt_of_gt [] [] h = cc
bytes-lt_of_gt [] (y ∷ ys) h = cc
bytes-lt_of_gt (x ∷ xs) [] h = refl
bytes-lt_of_gt (x ∷ xs) (y ∷ ys) h = ground (arith, bytes-lt_of_gt xs ys)

bytes-gt_of_lt : (a b : List ℕ) → compare_bytes a b ≡ lt → compare_bytes b a ≡ gt
unfolding compare_bytes
bytes-gt_of_lt [] [] h = cc
bytes-gt_of_lt [] (y ∷ ys) h = refl
bytes-gt_of_lt (x ∷ xs) [] h = cc
bytes-gt_of_lt (x ∷ xs) (y ∷ ys) h = ground (arith, bytes-gt_of_lt xs ys)

bytes-lt_trans :
    (a b c : List ℕ) → compare_bytes a b ≡ lt → compare_bytes b c ≡ lt → compare_bytes a c ≡ lt
unfolding compare_bytes
bytes-lt_trans [] [] c h k = cc
bytes-lt_trans [] (y ∷ ys) [] h k = cc
bytes-lt_trans [] (y ∷ ys) (z ∷ zs) h k = refl
bytes-lt_trans (x ∷ xs) [] c h k = cc
bytes-lt_trans (x ∷ xs) (y ∷ ys) [] h k = cc
bytes-lt_trans (x ∷ xs) (y ∷ ys) (z ∷ zs) h k = ground (arith, bytes-lt_trans xs ys zs)

pub compare_bytes-IsLawful : IsLawful compare_bytes
compare_bytes-IsLawful = record {
  cmp_refl = bytes-cmp_refl;
  eq_of_cmp = bytes-eq_of_cmp;
  lt_of_gt = bytes-lt_of_gt;
  gt_of_lt = bytes-gt_of_lt;
  lt_trans = bytes-lt_trans;
}
