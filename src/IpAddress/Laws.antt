-- ===== src/IpAddress/Laws.antt =====
-- What the functions of src/gekkota/gekkota_ipaddress.c do with addresses.
use gekkota.Base.{ℕ, ◌+◌, ◌≡◌, refl, sym, arith, ◌∙◌, List, ◌++◌, some, true, ok}
use gekkota.Base.{
  take, length, length-append, take-append_le, length-take_le, take_all, replicate,
  length-replicate,
}
use gekkota.Buffer.{Block}
use gekkota.IpAddress
use gekkota.IpAddress.{Address, Family, family_length, made_of, same_family}

kept : (n k : ℕ) (xs : List ℕ) → length xs ≡ n → take n (take n xs ++ replicate k 0) ≡ xs
kept n k xs h = rw (take_all n xs (sym h)) (take-append_le n xs (replicate k 0) (sym h))

whole : (n k : ℕ) (xs : List ℕ) → length xs ≡ n → length (take n xs ++ replicate k 0) ≡ n + k
whole n k xs h =
    length-append (take n xs) (replicate k 0)
    ∙ omega (arith, length-take_le n xs (omega arith), length-replicate {A = ℕ} k 0)

-- When the allocation succeeds, a block of 4 or of 16 bytes makes an address of the family of that
-- length, with sixteen bytes, of which as many as the family has are those of the block; it has one
-- reference and no scope, and its getter gives its bytes and the family's length.
pub get_bytes-new_2 :
    (f : Family) (b : Block)
    → length b.bytes ≡ family_length f
    → (a : Address) × (IpAddress.new_2 true
          (some (record { block = some b; len = family_length f }))
        ≡ ok a)
      × (a.family ≡ f)
      × (take (family_length f) a.bytes ≡ b.bytes)
      × (length a.bytes ≡ 16)
      × (IpAddress.get_bytes (some a) ≡ ok (a.bytes, family_length f))
unfolding IpAddress.new_2 IpAddress.get_bytes
get_bytes-new_2 Family.inet b h =
    (made_of Family.inet b.bytes, refl, refl, kept 4 12 b.bytes h, whole 4 12 b.bytes h, refl)
get_bytes-new_2 Family.inet6 b h =
    (made_of Family.inet6 b.bytes, refl, refl, kept 16 0 b.bytes h, whole 16 0 b.bytes h, refl)
