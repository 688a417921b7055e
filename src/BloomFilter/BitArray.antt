-- ===== src/BloomFilter/BitArray.antt =====
-- Bits set in an array of bytes.
use enigma.Prelude.{
  ℕ, zero, suc, ◌/◌, ◌%◌, ◌^◌, ◌≤◌, ◌<◌, bit_or, length-set, bit_and, true, some, List, [], ◌∷◌,
  length, get_elem?, set, ◌==◌, ◌≡◌, ◌≢◌, refl, sym, ap, ◌∙◌, subst, arith, Bool-cases, inl, inr,
}
use enigma.Prelude.Masks.{and-or_keeps, and-or_sets}
use enigma.Error.{ok}
use native.Mathlib.Nat.{one-le-pow}
use enigma.BloomFilter.{set_bit, test_bit}

-- The bit is in the array, and set.
abbrev pub HasBit : List ℕ → ℕ → Type 0
HasBit bits q = (b : ℕ) × (get_elem? bits (q / 8) ≡ some b) × (1 ≤ bit_and b (2 ^ (q % 8)))

-- The second has the size of the first and at least its bits.
abbrev pub Grows : List ℕ → List ℕ → Type 0
Grows bits bits' = (length bits' ≡ length bits) × ((q : ℕ) → HasBit bits q → HasBit bits' q)

get_elem?-set : (l : List ℕ) (i v : ℕ) → i < length l → get_elem? (set l i v) i ≡ some v
get_elem?-set [] i v h = absurd (omega arith)
get_elem?-set (x ∷ l) zero v h = refl
get_elem?-set (x ∷ l) (suc i) v h = get_elem?-set l i v (omega arith)

get_elem?-set_other : (l : List ℕ) (i j v : ℕ) → i ≢ j → get_elem? (set l i v) j ≡ get_elem? l j
get_elem?-set_other [] i j v h = refl
get_elem?-set_other (x ∷ l) zero zero v h = absurd (h refl)
get_elem?-set_other (x ∷ l) zero (suc j) v h = refl
get_elem?-set_other (x ∷ l) (suc i) zero v h = refl
get_elem?-set_other (x ∷ l) (suc i) (suc j) v h = get_elem?-set_other l i j v (λ e. h (ap suc e))

get_elem?-lt : (l : List ℕ) (i : ℕ) → i < length l → (b : ℕ) × (get_elem? l i ≡ some b)
get_elem?-lt [] i h = absurd (omega arith)
get_elem?-lt (x ∷ l) zero h = (x, refl)
get_elem?-lt (x ∷ l) (suc i) h = get_elem?-lt l i (omega arith)

Grows-set :
    (bits : List ℕ) (i b c : ℕ)
    → get_elem? bits i ≡ some b
    → i < length bits
    → Grows bits (set bits i (bit_or b c))
Grows-set bits i b c e lt = (length-set bits i (bit_or b c), kept)
  where
    kept : (q : ℕ) → HasBit bits q → HasBit (set bits i (bit_or b c)) q
    kept q (d, at_q, on) = elim (Bool-cases (i == q / 8)) [
      | inl same ↦
          let s : i ≡ q / 8 = ground arith in
          let old : some d ≡ some b = sym at_q ∙ ap (get_elem? bits) (sym s) ∙ e in
          let old' : d ≡ b = ground arith in
          (
            bit_or b c,
            subst (λ k. get_elem? (set bits i (bit_or b c)) k ≡ some (bit_or b c)) s
                (get_elem?-set bits i (bit_or b c) lt),
            omega (
              arith,
              and-or_keeps b c (2 ^ (q % 8)),
              subst (λ x. 1 ≤ bit_and x (2 ^ (q % 8))) old' on,
            ),
          )
      | inr other ↦
          (d, get_elem?-set_other bits i (q / 8) (bit_or b c) (λ s. ground arith) ∙ at_q, on)
    ]

-- Setting a bit in range sets it, and grows the array.
pub record WasSet (bits : List ℕ) (pos : ℕ) (bits' : List ℕ) : Type 0 where
  pub result : set_bit bits pos ≡ ok bits'
  pub grows : Grows bits bits'
  pub now : HasBit bits' pos

pub set_bit-WasSet :
    (bits : List ℕ) (pos : ℕ) → pos / 8 < length bits → (bits' : List ℕ) × WasSet bits pos bits'
set_bit-WasSet bits pos h =
    let (b, e) = get_elem?-lt bits (pos / 8) h in
    let mask = 2 ^ (pos % 8) in
    (
      set bits (pos / 8) (bit_or b mask),
      record {
        result = rw (e, set_bit);
        grows = Grows-set bits (pos / 8) b mask e h;
        now = (
          bit_or b mask,
          get_elem?-set bits (pos / 8) (bit_or b mask) h,
          omega (arith, and-or_sets b mask, one-le-pow (pos % 8) 2 (omega arith)),
        );
      },
    )

pub test_bit-HasBit : (bits : List ℕ) (pos : ℕ) → HasBit bits pos → test_bit bits pos ≡ ok true
test_bit-HasBit bits pos (b, e, on) = rw (e, test_bit) (ground arith)

pub Grows-trans : (a b c : List ℕ) → Grows a b → Grows b c → Grows a c
Grows-trans a b c g h = (h.0 ∙ g.0, λ q x. h.1 q (g.1 q x))
