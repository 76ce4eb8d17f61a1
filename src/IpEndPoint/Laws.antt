-- ===== src/IpEndPoint/Laws.antt =====
-- What the functions of src/gekkota/gekkota_ipendpoint.c do with a store of addresses.
use gekkota.Base.{plus}
use gekkota.Base.{
  ℕ, zero, suc, ◌+◌, ◌<◌, ◌≡◌, refl, ap, ◌∙◌, arith, List, [], ◌∷◌, none, some, Bool, true, false,
  ok, NetOrder, done,
}
use gekkota.Base.{u16, u32, sub32, get_elem?, set, ◌==◌}
use gekkota.IpAddress
use gekkota.IpAddress.{Address}
use gekkota.IpEndPoint
use gekkota.IpEndPoint.{Store, IpEndPoint, retain, release, taken, with_address}

get_elem?-set {ℓ} :
    {A : Type ℓ} (xs : List A) (i : ℕ) (x y : A)
    → get_elem? xs i ≡ some x
    → get_elem? (set xs i y) i ≡ some y
get_elem?-set [] i x y h = cc
get_elem?-set (z ∷ xs) zero x y h = refl
get_elem?-set (z ∷ xs) (suc i) x y h = get_elem?-set xs i x y h

set-set {ℓ} : {A : Type ℓ} (xs : List A) (i : ℕ) (x y : A) → set (set xs i x) i y ≡ set xs i y
set-set [] i x y = refl
set-set (z ∷ xs) zero x y = refl
set-set (z ∷ xs) (suc i) x y = ap (λ t. z ∷ t) (set-set xs i x y)

set_same {ℓ} :
    {A : Type ℓ} (xs : List A) (i : ℕ) (x : A) → get_elem? xs i ≡ some x → set xs i x ≡ xs
set_same [] i x h = refl
set_same (z ∷ xs) zero x h = ground arith
set_same (z ∷ xs) (suc i) x h = ap (λ t. z ∷ t) (set_same xs i x h)

-- The address with one reference more.
abbrev referred : Address → Address
referred a = record a { reference_count = a.reference_count + 1 }

retain_lem :
    (s : Store) (p : ℕ) (a : Address)
    → get_elem? s p ≡ some (some a)
    → a.reference_count < 4294967295
    → retain s p ≡ done (set s p (some (referred a)))
unfolding retain IpAddress.new_0
retain_lem s p a there few =
    let up : u32 (a.reference_count + 1) ≡ a.reference_count + 1 = omega arith in
    simp (there, up) refl

release_lem :
    (s : Store) (p : ℕ) (a : Address)
    → get_elem? s p ≡ some (some (referred a))
    → 0 < a.reference_count
    → a.reference_count < 4294967295
    → release s p ≡ done (set s p (some a))
unfolding release IpAddress.destroy
release_lem s p a there some_left few =
    let down : sub32 (a.reference_count + 1) 1 ≡ a.reference_count = omega arith in
    let left : (a.reference_count == 0) ≡ false = ground arith in simp (there, down, left) refl

-- An end point made on an address in the store, which has a reference and less than 2^32 - 1, takes
-- one of its own, whose return by destroying the end point leaves the store as it was; the end
-- point's port is the one it was made with.
pub destroy-new :
    (o : NetOrder) (alloc_address : Bool) (s : Store) (p port : ℕ) (a : Address)
    → get_elem? s p ≡ some (some a)
    → 0 < a.reference_count
    → a.reference_count < 4294967295
    → port < 65536
    → (t : Store) × (e : IpEndPoint) × (IpEndPoint.new o alloc_address true s (some p) port
        ≡ done (t, ok e))
      × (get_elem? t p ≡ some (some (record a { reference_count = a.reference_count + 1 })))
      × (IpEndPoint.get_port o (some e) ≡ ok port)
      × (IpEndPoint.destroy t (some e) ≡ done (s, none, ok (plus 0)))
unfolding IpEndPoint.new IpEndPoint.get_port IpEndPoint.destroy taken with_address
destroy-new o alloc_address s p port a there some_left few small =
    let t = set s p (some (referred a)) in
    let held : get_elem? t p ≡ some (some (referred a)) = get_elem?-set s p (some a) _ there in
    let back : set t p (some a) ≡ s = set-set s p _ _ ∙ set_same s p (some a) there in
    let word : u16 port ≡ port = omega arith in
    (
      t,
      record { address = p; port = o.hton16 (u16 port); reference_count = 1 },
      rw (retain_lem s p a there few) refl,
      held,
      rw (word, o.ntoh16-hton16 port small) refl,
      rw (release_lem t p a held some_left few, back) refl,
    )
