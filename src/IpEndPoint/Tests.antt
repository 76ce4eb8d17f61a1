-- ===== src/IpEndPoint/Tests.antt =====
-- The theorem on end points at a concrete input.
use gekkota.Base.{plus}
use gekkota.Base.{◌≡◌, refl, arith, [], ◌∷◌, some, none, true, ok, done, get_elem?, little_endian}
use gekkota.IpAddress.{Family, made_of}
use gekkota.IpEndPoint
use gekkota.IpEndPoint.{Store, IpEndPoint}
use gekkota.IpEndPoint.Laws.{destroy-new}

abbrev store : Store
store = none ∷ some (made_of Family.inet (127 ∷ 0 ∷ 0 ∷ 1 ∷ [])) ∷ []

destroy-new_example :
    (t : Store) × (e : IpEndPoint) × (IpEndPoint.new little_endian true true store (some 1) 80
      ≡ done (t, ok e))
    × (get_elem? t 1
        ≡ some (some (record (made_of Family.inet (127 ∷ 0 ∷ 0 ∷ 1 ∷ [])) { reference_count = 2 })))
    × (IpEndPoint.get_port little_endian (some e) ≡ ok 80)
    × (IpEndPoint.destroy t (some e) ≡ done (store, none, ok (plus 0)))
destroy-new_example =
    destroy-new little_endian true store 1 80 (made_of Family.inet (127 ∷ 0 ∷ 0 ∷ 1 ∷ [])) refl
      (omega arith) (omega arith) (omega arith)
