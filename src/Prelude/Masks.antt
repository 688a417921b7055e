-- ===== src/Prelude/Masks.antt =====
-- `&` against `|`: a bit that is set stays set.
use Prim.Native.Nat.{
  ℕ, zero, suc, ◌+◌, ◌*◌, ◌/◌, ◌%◌, ◌≤◌, min, max, bit_and, bit_or, digits, bit_and-bitwise,
}
use mathlib.Core.Path.{◌≡◌, refl}
use native.Mathlib.Omega.{arith}
use enigma.Prelude.Bits.{bit_or_digit}

abbrev masked : ℕ → ℕ → ℕ → ℕ
masked fuel x m = digits (λ y. 0) min fuel x m

masked_fuel : (more fuel m x : ℕ) → x ≤ fuel → x ≤ more → masked fuel x m ≡ masked more x m
masked_fuel zero zero m x p q = refl
masked_fuel zero (suc fuel) m zero p q = refl
masked_fuel (suc more) zero m zero p q = refl
masked_fuel (suc more) (suc fuel) m zero p q = refl
masked_fuel zero (suc fuel) m (suc x) p q = absurd (omega arith)
masked_fuel (suc more) zero m (suc x) p q = absurd (omega arith)
masked_fuel (suc more) (suc fuel) m (suc x) p q =
    omega (arith, masked_fuel more fuel (m / 2) (suc x / 2) (omega arith) (omega arith))

pub bit_and_digit : (x m : ℕ) → bit_and x m ≡ bit_and (x / 2) (m / 2) * 2 + min (x % 2) (m % 2)
bit_and_digit zero m = omega (arith, bit_and-bitwise 0 m, bit_and-bitwise 0 (m / 2))
bit_and_digit (suc x) m = omega (
  arith,
  masked_fuel x (suc x / 2) (m / 2) (suc x / 2) (omega arith) (omega arith),
  bit_and-bitwise (suc x) m,
  bit_and-bitwise (suc x / 2) (m / 2),
)

-- The digits of `|`, apart.
bit_or-half : (x c : ℕ) → bit_or x c / 2 ≡ bit_or (x / 2) (c / 2)
bit_or-half x c = omega (arith, bit_or_digit x c)

bit_or-last : (x c : ℕ) → bit_or x c % 2 ≡ max (x % 2) (c % 2)
bit_or-last x c = omega (arith, bit_or_digit x c)

and-or_digit :
    (x c m : ℕ)
    → bit_and (bit_or x c) m
      ≡ bit_and (bit_or (x / 2) (c / 2)) (m / 2) * 2 + min (max (x % 2) (c % 2)) (m % 2)
and-or_digit x c m = rw (← bit_or-half x c, ← bit_or-last x c) (bit_and_digit (bit_or x c) m)

keeps_fuel : (n x c m : ℕ) → x ≤ n → bit_and x m ≤ bit_and (bit_or x c) m
keeps_fuel n zero c m h = omega (arith, bit_and-bitwise 0 m)
keeps_fuel zero (suc x) c m h = absurd (omega arith)
keeps_fuel (suc n) (suc x) c m h = omega (
  arith,
  bit_and_digit (suc x) m,
  and-or_digit (suc x) c m,
  keeps_fuel n (suc x / 2) (c / 2) (m / 2) (omega arith),
)

-- `x |= c` takes no bit of the mask away.
pub and-or_keeps : (x c m : ℕ) → bit_and x m ≤ bit_and (bit_or x c) m
and-or_keeps x c m = keeps_fuel x x c m (omega arith)

sets_fuel : (n x c : ℕ) → c ≤ n → c ≤ bit_and (bit_or x c) c
sets_fuel n x zero h = omega arith
sets_fuel zero x (suc c) h = absurd (omega arith)
sets_fuel (suc n) x (suc c) h =
    omega (arith, and-or_digit x (suc c) (suc c), sets_fuel n (x / 2) (suc c / 2) (omega arith))

-- `x |= c` sets every bit of `c`.
pub and-or_sets : (x c : ℕ) → c ≤ bit_and (bit_or x c) c
and-or_sets x c = sets_fuel c x c (omega arith)
