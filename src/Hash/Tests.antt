-- ===== src/Hash/Tests.antt =====
-- The hash that a host takes for the number of its protocol.
use gekkota.Base.{◌≡◌, refl, [], ◌∷◌, some}
use gekkota.Hash.{hash_16, hash, hash_from}

-- The hash of "XUDP".
hash_16-xudp : hash_16 (some (0x58 ∷ 0x55 ∷ 0x44 ∷ 0x50 ∷ [])) ≡ 0x0C40
unfolding hash_16 hash hash_from
hash_16-xudp = refl
