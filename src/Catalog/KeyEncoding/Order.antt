-- ===== src/Catalog/KeyEncoding/Order.antt =====
-- The byte order of encoded keys is the order of the rows.
use enigma.Prelude.{ℕ, zero, suc, List, [], ◌∷◌, ◌++◌, ◌≡◌, refl, arith, Ordering}
use enigma.Prelude.Ord.{compare_bytes}
use enigma.Catalog.KeyEncoding.{escape, encode_composite_key}

-- The first that decides.
abbrev pub then_compare : Ordering → Ordering → Ordering
then_compare Ordering.lt second = Ordering.lt
then_compare Ordering.eq second = second
then_compare Ordering.gt second = Ordering.gt

then_compare-eq : (o : Ordering) → then_compare o Ordering.eq ≡ o
then_compare-eq Ordering.lt = refl
then_compare-eq Ordering.eq = refl
then_compare-eq Ordering.gt = refl

compare-escape :
    (f g r s : List ℕ)
    → compare_bytes (escape f ++ (0x00 ∷ 0x01 ∷ r)) (escape g ++ (0x00 ∷ 0x01 ∷ s))
      ≡ then_compare (compare_bytes f g) (compare_bytes r s)
unfolding escape compare_bytes
compare-escape [] [] r s = refl
compare-escape [] (zero ∷ g) r s = refl
compare-escape [] (suc b ∷ g) r s = ground arith
compare-escape (zero ∷ f) [] r s = refl
compare-escape (suc a ∷ f) [] r s = ground arith
compare-escape (zero ∷ f) (zero ∷ g) r s = compare-escape f g r s
compare-escape (zero ∷ f) (suc b ∷ g) r s = ground arith
compare-escape (suc a ∷ f) (zero ∷ g) r s = ground arith
compare-escape (suc a ∷ f) (suc b ∷ g) r s = ground (arith, compare-escape f g r s)

-- Encoded keys compare, byte by byte, as their partition keys, then their clustering keys, then
-- their column names do.
pub compare-encode_composite_key :
    (p c n p' c' n' : List ℕ)
    → compare_bytes (encode_composite_key p c n) (encode_composite_key p' c' n')
      ≡ then_compare (compare_bytes p p') (then_compare (compare_bytes c c') (compare_bytes n n'))
unfolding encode_composite_key
compare-encode_composite_key p c n p' c' n' =
    rw (compare-escape p p', compare-escape c c', compare-escape n n' [] [])
      (unfold compare_bytes in rw then_compare-eq)
