-- ===== src/BloomFilter/Tests.antt =====
-- The Bloom filter on small inputs.
use enigma.Prelude.{false, List, [], ◌∷◌, ◌≡◌, refl, arith}
use enigma.Error.{Result, ok}
use enigma.Storage.{Key}
use enigma.Hash.{hash}
use enigma.BloomFilter.{BloomFilter, new_filter, add_keys, may_contain}
use enigma.BloomFilter.Membership.{IsSized, IsIndexed, add_keys-IsIndexed}

abbrev two_keys : List Key
two_keys = (97 ∷ 98 ∷ 99 ∷ []) ∷ (120 ∷ []) ∷ []

abbrev small : BloomFilter
small = new_filter 16 2

small-IsSized : IsSized small
unfolding new_filter
small-IsSized = record { bits = refl; some_bits = omega arith }

add_keys-IsIndexed_example :
    (f' : BloomFilter) × (add_keys small two_keys ≡ ok f') × IsIndexed f' two_keys
add_keys-IsIndexed_example = add_keys-IsIndexed small two_keys small-IsSized

abbrev result : Result BloomFilter → BloomFilter
result (ok f) = f
result _ = small

-- A key that was never added is told apart.
absent : may_contain (result (add_keys small two_keys)) (122 ∷ []) ≡ ok false
unfolding may_contain add_keys new_filter hash
absent = refl
