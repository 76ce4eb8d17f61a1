-- ===== src/Crc32/Tests.antt =====
-- The checksum at concrete inputs.
use gekkota.Base.{◌≡◌, [], ◌∷◌, little_endian}
use gekkota.Crc32.{calculate, calculate-joined}

calculate-joined_example :
    calculate little_endian ((1 ∷ 2 ∷ []) ∷ (3 ∷ []) ∷ [])
    ≡ calculate little_endian ((1 ∷ 2 ∷ 3 ∷ []) ∷ [])
calculate-joined_example = calculate-joined little_endian ((1 ∷ 2 ∷ []) ∷ (3 ∷ []) ∷ [])
