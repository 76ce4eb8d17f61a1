-- ===== src/Hash.antt =====
-- `gekkota_hash_16` and `gekkota_hash_32` (src/gekkota/gekkota.c), the macro `_gekkota_hash` over
-- the characters of a text. A character above 127 is negative there, which wraps around.
mod Tests
use gekkota.Base.{ℕ, ◌+◌, ◌*◌, ◌/◌, ◌%◌, ◌-◌, List, [], ◌∷◌, Option, none, some, bit_and, bit_xor}
use gekkota.Base.{ltb, ◌==◌, if◌then◌else◌}

module _ (size mask : ℕ) where
  -- A `char` as a number of the hash's width.
  abbrev widened : (c : ℕ) → ℕ
  widened c = if ltb c 128 then c else c + size - 256

  abbrev mixed : (code shift : ℕ) → ℕ
  mixed code shift = if shift == 0 then code else bit_xor (bit_xor code (shift / 256)) shift

  unfoldable pub hash_from : (code : ℕ) → List ℕ → ℕ
  hash_from code [] = code
  hash_from code (c ∷ cs) =
      let next = (code * 16 + widened c) % size in hash_from (mixed next (bit_and next mask)) cs

  -- NULL has the hash 0.
  unfoldable pub hash : Option (List ℕ) → ℕ
  unfolding hash_from
  hash none = 0
  hash (some cs) = hash_from 0 cs

unfoldable pub hash_16 : Option (List ℕ) → ℕ
unfolding hash
hash_16 s = hash 65536 0xF000 s

unfoldable pub hash_32 : Option (List ℕ) → ℕ
unfolding hash
hash_32 s = hash 4294967296 0xF000_0000 s
