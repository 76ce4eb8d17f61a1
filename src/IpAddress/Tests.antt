-- ===== src/IpAddress/Tests.antt =====
-- The functions on addresses at concrete inputs.
use gekkota.Base.{◌≡◌, refl, [], ◌∷◌, some, true, false, ok, little_endian}
use gekkota.Buffer.{Block}
use gekkota.IpAddress
use gekkota.IpAddress.{Address, Family, made_of}

abbrev localhost : Block
localhost = record { address = 8; bytes = 127 ∷ 0 ∷ 0 ∷ 1 ∷ [] }

-- The word 0x7f000001 in the host's order is the same address.
host_order :
    IpAddress.new_1 little_endian true (
      some
        (record { block = some (record { address = 8; bytes = 1 ∷ 0 ∷ 0 ∷ 127 ∷ [] }); len = 4 }))
    ≡ ok (made_of Family.inet localhost.bytes)
unfolding IpAddress.new_1 IpAddress.new_2
host_order = refl

-- A copy is equal to the address it is of.
copy_is_equal :
    IpAddress.equals false
      (IpAddress.copy false
        (some (made_of Family.inet6 []))
        (some (made_of Family.inet localhost.bytes))).0
      (some (made_of Family.inet localhost.bytes))
    ≡ true
unfolding IpAddress.equals IpAddress.copy
copy_is_equal = refl
