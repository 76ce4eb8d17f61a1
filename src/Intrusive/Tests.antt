-- ===== src/Intrusive/Tests.antt =====
-- The theorems on lists at a concrete ring.
use gekkota.Base.{◌≡◌, refl, arith, [], ◌∷◌, ok, done, ◌==◌, if◌then◌else◌}
use gekkota.Intrusive.{Links, insert, remove, get_count, list_is_empty}
use gekkota.Intrusive.Rings.{IsFresh, AreDistinct, IsChain, IsRing}
use gekkota.Intrusive.Inserts.{insert-IsRing}
use gekkota.Intrusive.Removes.{remove-IsRing}
use gekkota.Intrusive.Counts.{get_count-length}

-- A list at 1 with the element 2.
abbrev links : Links
links = record {
  next = λ i. if i == 1 then 2 else if i == 2 then 1 else 0;
  previous = λ i. if i == 1 then 2 else if i == 2 then 1 else 0;
}

links-IsRing : IsRing links 1 (2 ∷ [])
unfolding IsRing IsChain AreDistinct IsFresh
links-IsRing = (
  (refl, refl, (refl, refl)),
  (((λ h. omega arith), ((λ h. omega arith), tt)), (((λ h. omega arith), tt), (tt, tt))),
)

three-IsFresh : IsFresh 3 (1 ∷ 2 ∷ [])
unfolding IsFresh
three-IsFresh = ((λ h. omega arith), ((λ h. omega arith), tt))

insert-IsRing_example :
    (h' : Links) × (insert links 2 3 ≡ done (h', ok 3)) × IsRing h' 1 (3 ∷ 2 ∷ [])
insert-IsRing_example =
    insert-IsRing links 1 [] (2 ∷ []) 3 links-IsRing (λ h. omega arith) three-IsFresh refl refl

remove-IsRing_example :
    (h' : Links) × (remove links 2 ≡ done (h', ok 2))
    × IsRing h' 1 []
    × (h'.next 2 ≡ 0)
    × (h'.previous 2 ≡ 0)
remove-IsRing_example = remove-IsRing links 1 [] [] 2 links-IsRing

get_count-length_example : (get_count links 1 2 ≡ done (ok 1)) × (list_is_empty links 1 ≡ (1 == 0))
get_count-length_example = get_count-length links 1 (2 ∷ []) links-IsRing
