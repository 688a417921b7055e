-- ===== src/Hash/Tests.antt =====
-- The hash on small inputs.
use enigma.Prelude.{[], ◌∷◌, ◌≡◌, refl}
use enigma.Hash.{hash}

of_nothing : hash [] 0xbc9f1d34 ≡ 0xbc9f1d34
unfolding hash
of_nothing = refl

-- One word of four bytes, and two that remain.
of_six_bytes : hash (97 ∷ 98 ∷ 99 ∷ 100 ∷ 101 ∷ 102 ∷ []) 0xbc9f1d34 ≡ 509491479
unfolding hash
of_six_bytes = refl
