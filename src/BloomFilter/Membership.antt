-- ===== src/BloomFilter/Membership.antt =====
-- No false negatives: what was added may be contained, whatever else is added.
use enigma.Prelude.{
  ℕ, zero, suc, ◌+◌, ◌*◌, ◌/◌, ◌%◌, ◌^◌, ◌<◌, bit_or, true, List, [], ◌∷◌, length, ◌≡◌, refl, sym,
  ap, ◌∙◌, arith, All,
}
use enigma.Error.{ok}
use enigma.Storage.{Key}
use enigma.Hash.{hash}
use native.Mathlib.Nat.{mod-lt}
use enigma.BloomFilter.BitArray.{Grows, Grows-trans, set_bit-WasSet, test_bit-HasBit}
use enigma.BloomFilter.{
  BloomFilter, seed_1, seed_2, bit_pos, set_bit, add_loop, add, test_bit, contain_loop, may_contain,
  add_keys, stored_filter,
}

-- Every position is in the array.
bit_pos-in_range :
    (bytes h1 h2 i : ℕ)
    → 0 < bytes
    → (pos : ℕ) × (bit_pos (bytes * 8) h1 h2 i ≡ ok pos) × (pos / 8 < bytes)
bit_pos-in_range bytes h1 h2 i h =
    let x = (h1 + i * bit_or h2 1) % 2 ^ 64 in (x % (bytes * 8), ground arith, below x)
  where
    below : (x : ℕ) → x % (bytes * 8) / 8 < bytes
    below x = let lt : x % (bytes * 8) < bytes * 8 = mod-lt x (omega arith) in omega (arith, lt)

-- What the loop of `add` makes of the array: from there on the loop of `may_contain` succeeds.
record Added (bytes h1 h2 rounds i : ℕ) (bits bits' : List ℕ) : Type 0 where
  result : add_loop (bytes * 8) h1 h2 rounds i bits ≡ ok bits'
  grows : Grows bits bits'
  found :
      (later : List ℕ) → Grows bits' later → contain_loop (bytes * 8) h1 h2 rounds i later ≡ ok true

add_loop-step :
    (bit_count h1 h2 rounds i : ℕ) (bits bits' : List ℕ) {pos : ℕ}
    → bit_pos bit_count h1 h2 i ≡ ok pos
    → set_bit bits pos ≡ ok bits'
    → add_loop bit_count h1 h2 (suc rounds) i bits ≡ add_loop bit_count h1 h2 rounds (i + 1) bits'
add_loop-step bit_count h1 h2 rounds i bits bits' e f = unfold add_loop in rw (e, f)

contain_loop-step :
    (bit_count h1 h2 rounds i : ℕ) (bits : List ℕ) {pos : ℕ}
    → bit_pos bit_count h1 h2 i ≡ ok pos
    → test_bit bits pos ≡ ok true
    → contain_loop bit_count h1 h2 (suc rounds) i bits
      ≡ contain_loop bit_count h1 h2 rounds (i + 1) bits
contain_loop-step bit_count h1 h2 rounds i bits e f = unfold contain_loop in rw (e, f)

add_loop-Added :
    (bytes h1 h2 rounds i : ℕ) (bits : List ℕ)
    → 0 < bytes
    → length bits ≡ bytes
    → (bits' : List ℕ) × Added bytes h1 h2 rounds i bits bits'
add_loop-Added bytes h1 h2 zero i bits h size = (
  bits,
  record {
    result = unfold add_loop in refl;
    grows = (refl, λ q x. x);
    found = λ later g. unfold contain_loop in refl;
  },
)
add_loop-Added bytes h1 h2 (suc rounds) i bits h size =
    let (pos, e, lt) = bit_pos-in_range bytes h1 h2 i h in
    let (next, s) = set_bit-WasSet bits pos (omega (arith, lt)) in
    let (bits', a) = add_loop-Added bytes h1 h2 rounds (i + 1) next h (s.grows.0 ∙ size) in
    (
      bits',
      record {
        result = add_loop-step (bytes * 8) h1 h2 rounds i bits next e s.result ∙ a.result;
        grows = Grows-trans bits next bits' s.grows a.grows;
        found = λ later g.
            contain_loop-step (bytes * 8) h1 h2 rounds i later e
              (test_bit-HasBit later pos (g.1 pos (a.grows.1 pos s.now)))
            ∙ a.found later g;
      },
    )

-- A filter of the size that its array says, with a bit at least.
pub record IsSized (f : BloomFilter) : Type 0 where
  pub bits : f.bit_count ≡ length f.bit_array * 8
  pub some_bits : 0 < length f.bit_array

-- A filter that has all the bits of another, and its other fields.
record Extends (f f' : BloomFilter) : Type 0 where
  bits : f'.bit_count ≡ f.bit_count
  hashes : f'.num_hashes ≡ f.num_hashes
  grows : Grows f.bit_array f'.bit_array

Extends-IsSized : (f f' : BloomFilter) → Extends f f' → IsSized f → IsSized f'
Extends-IsSized f f' x s = record {
  bits = x.bits ∙ s.bits ∙ ap (λ n. n * 8) (sym x.grows.0);
  some_bits = omega (arith, x.grows.0, s.some_bits);
}

add-found :
    (f : BloomFilter) (key : Key)
    → IsSized f
    → (f' : BloomFilter) × (add f key ≡ ok f')
      × Extends f f'
      × ((later : BloomFilter) → Extends f' later → may_contain later key ≡ ok true)
add-found f key s =
    let bytes = length f.bit_array in
    let h1 = hash key seed_1 in
    let h2 = hash key seed_2 in
    let (bits', a) = add_loop-Added bytes h1 h2 f.num_hashes 0 f.bit_array s.some_bits refl in
    let f' = record f { bit_array = bits' } in
    (
      f',
      unfold add in rw (s.bits, a.result),
      record { bits = refl; hashes = refl; grows = a.grows },
      λ later x.
          let same : later.bit_count ≡ bytes * 8 = x.bits ∙ s.bits in
          unfold may_contain in rw (same, x.hashes) (a.found later.bit_array x.grows),
    )

pub add-IsSized :
    (f : BloomFilter) (key : Key)
    → IsSized f
    → (f' : BloomFilter) × (add f key ≡ ok f') × IsSized f'
add-IsSized f key s = let (f', e, x, found) = add-found f key s in (f', e, Extends-IsSized f f' x s)

Extends-trans : (f g h : BloomFilter) → Extends f g → Extends g h → Extends f h
Extends-trans f g h x y = record {
  bits = y.bits ∙ x.bits;
  hashes = y.hashes ∙ x.hashes;
  grows = Grows-trans f.bit_array g.bit_array h.bit_array x.grows y.grows;
}

-- What a filter with the bits of the keys answers, and the filter that is made from its bits and its
-- number of hashes.
pub record IsIndexed (f' : BloomFilter) (keys : List Key) : Type 0 where
  pub sized : IsSized f'
  pub found : All (λ key. may_contain f' key ≡ ok true) keys
  pub found_stored :
      All (λ key. may_contain (stored_filter f'.bit_array f'.num_hashes) key ≡ ok true) keys

add_keys-step :
    (f : BloomFilter) (key : Key) (keys : List Key) {g h : BloomFilter}
    → add f key ≡ ok g
    → add_keys g keys ≡ ok h
    → add_keys f (key ∷ keys) ≡ ok h
add_keys-step f key keys e e' = unfold add_keys in rw (e, e')

add_keys-Extends :
    (f : BloomFilter) (keys : List Key)
    → IsSized f
    → (f' : BloomFilter) × (add_keys f keys ≡ ok f')
      × Extends f f'
      × All (λ key. (later : BloomFilter) → Extends f' later → may_contain later key ≡ ok true) keys
add_keys-Extends f [] s = (
  f,
  unfold add_keys in refl,
  record { bits = refl; hashes = refl; grows = (refl, λ q x. x) },
  tt,
)
add_keys-Extends f (key ∷ keys) s =
    let (g, e, x, found) = add-found f key s in
    let (h, e', y, all) = add_keys-Extends g keys (Extends-IsSized f g x s) in
    (
      h,
      add_keys-step f key keys e e',
      Extends-trans f g h x y,
      (λ later z. found later (Extends-trans g h later y z), all),
    )

found_by :
    (later f' : BloomFilter) (keys : List Key)
    → All (λ key. (g : BloomFilter) → Extends f' g → may_contain g key ≡ ok true) keys
    → Extends f' later
    → All (λ key. may_contain later key ≡ ok true) keys
found_by later f' [] all x = tt
found_by later f' (key ∷ keys) all x = (all.0 later x, found_by later f' keys all.1 x)

-- Adding keys to a filter whose size in bits is that of its array, and not zero, succeeds. The
-- filter that results has such a size too, it may contain each of the keys, and so may the filter
-- made from its bit array and its number of hashes.
pub add_keys-IsIndexed :
    (f : BloomFilter) (keys : List Key)
    → IsSized f
    → (f' : BloomFilter) × (add_keys f keys ≡ ok f') × IsIndexed f' keys
add_keys-IsIndexed f keys s =
    let (f', e, x, all) = add_keys-Extends f keys s in
    let s' = Extends-IsSized f f' x s in
    let again = stored_filter f'.bit_array f'.num_hashes in
    let kept : Grows f'.bit_array f'.bit_array = (refl, λ q y. y) in
    (
      f',
      e,
      record {
        sized = s';
        found = found_by f' f' keys all (record { bits = refl; hashes = refl; grows = kept });
        found_stored =
            found_by again f' keys all (record { bits = sym s'.bits; hashes = refl; grows = kept });
      },
    )
