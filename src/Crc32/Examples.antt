-- ===== src/Crc32/Examples.antt =====
-- The checksum of "123456789", the customary check value of CRC-32.
use mavlink_companion_log_se.Base.{◌≡◌, refl, List, ℕ, [], ◌∷◌}
use mavlink_companion_log_se.Crc32.{crc32}

abbrev digits_text : List ℕ
digits_text = 49 ∷ 50 ∷ 51 ∷ 52 ∷ 53 ∷ 54 ∷ 55 ∷ 56 ∷ 57 ∷ []

check_value : crc32 digits_text 0 ≡ 0xCBF43926
unfolding crc32
check_value = refl
