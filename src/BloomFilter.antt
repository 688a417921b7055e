-- ===== src/BloomFilter.antt =====
-- src/bloom_filter.cpp. The constructor's logarithms are a parameter: the number of bits and of
-- hashes that they come to, as `size_t`.
mod BitArray
pub mod Membership
mod Tests
use enigma.Prelude.{
  ℕ, zero, suc, ◌+◌, ◌*◌, ◌/◌, ◌%◌, ◌^◌, min, max, bit_or, bit_and, Bool, true, false, Option, none,
  some, List, [], ◌∷◌, length, replicate, get_elem?, set, ◌==◌, if◌then◌else◌,
}
use enigma.Error.{Result, ok, err, fault, ◌>>=◌}
use enigma.Storage.{Key}
use enigma.Hash.{hash}

abbrev pub seed_1 : ℕ
seed_1 = 0xbc9f1d34

abbrev pub seed_2 : ℕ
seed_2 = 0x6c8e9cf5

pub record BloomFilter : Type 0 where
  pub bit_count : ℕ
  pub num_hashes : ℕ
  pub bit_array : List ℕ

-- The constructor for an expected number of keys, from `static_cast<size_t>(m)` and
-- `static_cast<size_t>(...)` for the number of hashes.
unfoldable pub new_filter : ℕ → ℕ → BloomFilter
new_filter m k =
    let bit_count = (m + 7) / 8 * 8 in
    record {
      bit_count = bit_count;
      num_hashes = max 1 (min k 30);
      bit_array = replicate ((bit_count + 7) / 8) 0;
    }

-- The constructor from a stored bit array.
abbrev pub stored_filter : List ℕ → ℕ → BloomFilter
stored_filter bit_array num_hash_functions = record {
  bit_count = length bit_array * 8;
  num_hashes = num_hash_functions;
  bit_array = bit_array;
}

-- `(h1 + i * (h2 | 1)) % bit_count_`; a remainder by zero is undefined.
abbrev pub bit_pos : ℕ → ℕ → ℕ → ℕ → Result ℕ
bit_pos bit_count h1 h2 i =
    if bit_count == 0 then fault else ok ((h1 + i * bit_or h2 1) % 2 ^ 64 % bit_count)

-- `bit_array_[byte_idx] |= (1 << bit_offset)`
abbrev pub set_bit : List ℕ → ℕ → Result (List ℕ)
set_bit bits pos = elim (get_elem? bits (pos / 8)) [
  | none ↦ fault
  | some b ↦ ok (set bits (pos / 8) (bit_or b (2 ^ (pos % 8))))
]

-- The loop of `add`, with the rounds left and `i`.
unfoldable pub add_loop : ℕ → ℕ → ℕ → ℕ → ℕ → List ℕ → Result (List ℕ)
add_loop bit_count h1 h2 zero i bits = ok bits
add_loop bit_count h1 h2 (suc rounds) i bits = bit_pos bit_count h1 h2 i >>= λ pos.
    set_bit bits pos >>= λ bits'. add_loop bit_count h1 h2 rounds (i + 1) bits'

unfoldable pub add : BloomFilter → Key → Result BloomFilter
unfolding add_loop
add f key =
    add_loop f.bit_count (hash key seed_1) (hash key seed_2) f.num_hashes 0 f.bit_array >>= λ bits.
    ok (record f { bit_array = bits })

-- `bit_array_[byte_idx] & (1 << bit_offset)` as a condition.
abbrev pub test_bit : List ℕ → ℕ → Result Bool
test_bit bits pos = elim (get_elem? bits (pos / 8)) [
  | none ↦ fault
  | some b ↦ ok (if bit_and b (2 ^ (pos % 8)) == 0 then false else true)
]

unfoldable pub contain_loop : ℕ → ℕ → ℕ → ℕ → ℕ → List ℕ → Result Bool
contain_loop bit_count h1 h2 zero i bits = ok true
contain_loop bit_count h1 h2 (suc rounds) i bits =
    let rest = contain_loop bit_count h1 h2 rounds (i + 1) bits in
    bit_pos bit_count h1 h2 i >>= λ pos.
    test_bit bits pos >>= λ found. if found then rest else ok false

unfoldable pub may_contain : BloomFilter → Key → Result Bool
unfolding contain_loop
may_contain f key =
    contain_loop f.bit_count (hash key seed_1) (hash key seed_2) f.num_hashes 0 f.bit_array

-- The loop of `from_keys`, after the constructor.
unfoldable pub add_keys : BloomFilter → List Key → Result BloomFilter
unfolding add
add_keys f [] = ok f
add_keys f (key ∷ keys) = add f key >>= λ f'. add_keys f' keys
