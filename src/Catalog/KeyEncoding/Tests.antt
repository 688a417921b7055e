-- ===== src/Catalog/KeyEncoding/Tests.antt =====
-- Runs of the composite key encoding, and its theorems at concrete inputs.
use enigma.Prelude.{ℕ, List, [], ◌∷◌, ◌++◌, ◌≡◌, refl, Ordering}
use enigma.Prelude.Ord.{compare_bytes}
use enigma.Error.{ok, err, error, read_err}
use enigma.Catalog.KeyEncoding.{
  CompositeKey, escape, encode_composite_key, decode_field, decode_composite_key,
}
use enigma.Catalog.KeyEncoding.RoundTrip.{
  encode, decode_composite_key-encode_composite_key, decode_composite_key_sound,
}
use enigma.Catalog.KeyEncoding.Order.{compare-encode_composite_key}

abbrev sample : CompositeKey
sample = record { partition_key = 7 ∷ 0 ∷ []; clustering_key = []; column_name = 1 ∷ [] }

encoded_sample : encode sample ≡ 7 ∷ 0 ∷ 0xFF ∷ 0 ∷ 1 ∷ 0 ∷ 1 ∷ 1 ∷ 0 ∷ 1 ∷ []
unfolding encode_composite_key escape
encoded_sample = refl

cut_short : decode_composite_key (7 ∷ 0 ∷ []) ≡ err (error read_err "Malformed partition key")
unfolding decode_composite_key decode_field
cut_short = refl

bad_escape :
    decode_composite_key (0 ∷ 1 ∷ 0 ∷ 2 ∷ []) ≡ err (error read_err "Malformed clustering key")
unfolding decode_composite_key decode_field
bad_escape = refl

decode_composite_key-encode_composite_key_example :
    decode_composite_key (encode sample ++ (9 ∷ [])) ≡ ok sample
decode_composite_key-encode_composite_key_example =
    decode_composite_key-encode_composite_key sample (9 ∷ [])

decode_composite_key_sound_example :
    (rest : List ℕ) × (7 ∷ 0 ∷ 0xFF ∷ 0 ∷ 1 ∷ 0 ∷ 1 ∷ 1 ∷ 0 ∷ 1 ∷ 5 ∷ [] ≡ encode sample ++ rest)
unfolding decode_composite_key decode_field
decode_composite_key_sound_example =
    decode_composite_key_sound (7 ∷ 0 ∷ 0xFF ∷ 0 ∷ 1 ∷ 0 ∷ 1 ∷ 1 ∷ 0 ∷ 1 ∷ 5 ∷ []) sample refl

compare-encode_composite_key_example :
    compare_bytes
      (encode_composite_key (1 ∷ []) [] [])
      (encode_composite_key (1 ∷ 0 ∷ []) (9 ∷ []) [])
    ≡ Ordering.lt
unfolding compare_bytes
compare-encode_composite_key_example =
    compare-encode_composite_key (1 ∷ []) [] [] (1 ∷ 0 ∷ []) (9 ∷ []) []
