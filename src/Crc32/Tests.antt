-- ===== src/Crc32/Tests.antt =====
-- The check value of CRC-32C.
use enigma.Prelude.{◌≡◌, refl, [], ◌∷◌}
use enigma.Crc32.{compute_crc_32}

check_value :
    compute_crc_32 (b'1' ∷ b'2' ∷ b'3' ∷ b'4' ∷ b'5' ∷ b'6' ∷ b'7' ∷ b'8' ∷ b'9' ∷ []) ≡ 0xE3069283
unfolding compute_crc_32
check_value = refl

nothing_read : compute_crc_32 [] ≡ 0
unfolding compute_crc_32
nothing_read = refl
