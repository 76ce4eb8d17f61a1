-- ===== src/Xudp/Host/Reassembly.antt =====
-- What a fragment does to the packet that it belongs to
-- (`_gekkota_xudp_on_data_fragment_message` of src/gekkota/gekkota_xudp.c).
use gekkota.Base.{
  ℕ, zero, suc, ◌+◌, ◌-◌, ◌/◌, ◌%◌, ◌^◌, ◌<◌, ◌≤◌, ◌≡◌, refl, sym, ap, ◌∙◌, arith, List, [], ◌∷◌,
  ◌++◌,
}
use gekkota.Base.{some, true, false, Bool-cases, ◌⊎◌, inl, inr, done}
use gekkota.Base.{
  u32, sub32, get_elem?, get_or, get_elem?-eq-get_or, set, length, length-take_le, take, drop,
  drop_all, ◌==◌, ltb,
}
use native.Mathlib.Nat.{add-div_right, two-pow-succ}
use gekkota.Xudp.Types.{Incoming, is_set, bit_set}
use gekkota.Xudp.Host.Fragments.{Part, write_at, fitting, marked, place}

pow_pos : (k : ℕ) → 0 < 2 ^ k
pow_pos zero = omega arith
pow_pos (suc k) = omega (arith, two-pow-succ k, pow_pos k)

pub is_set-bit_set_any : (flags k : ℕ) → is_set (bit_set flags k) k ≡ true
is_set-bit_set_any flags k = elim (Bool-cases (is_set flags k)) [
  | inl e ↦ rw (e) e
  | inr e ↦
      let up : (flags + 2 ^ k) / 2 ^ k ≡ flags / 2 ^ k + 1 = add-div_right flags (pow_pos k) in
      rw (e, up) (flipped (flags / 2 ^ k) e)
]
  where
    flipped : (q : ℕ) → (q % 2 == 1) ≡ false → ((q + 1) % 2 == 1) ≡ true
    flipped q h = ground arith

get_elem?-set :
    {A : Type 0} (xs : List A) (i : ℕ) (v : A) → i < length xs → get_elem? (set xs i v) i ≡ some v
get_elem?-set [] i v h = absurd (omega arith)
get_elem?-set (x ∷ xs) zero v h = refl
get_elem?-set (x ∷ xs) (suc i) v h = get_elem?-set xs i v (omega arith)

take-drop : {A : Type 0} (n : ℕ) (xs : List A) → take n xs ++ drop n xs ≡ xs
take-drop zero xs = refl
take-drop (suc n) [] = refl
take-drop (suc n) (x ∷ xs) = ap (λ t. x ∷ t) (take-drop n xs)

drop-drop : {A : Type 0} (n k : ℕ) (xs : List A) → drop k (drop n xs) ≡ drop (n + k) xs
drop-drop zero k xs = ap (λ i. drop i xs) (omega arith)
drop-drop (suc n) k [] = drop_all k [] (omega arith) ∙ sym (drop_all (suc n + k) [] (omega arith))
drop-drop (suc n) k (x ∷ xs) =
    let same : suc (n + k) ≡ suc n + k = omega arith in
    drop-drop n k xs ∙ ap (λ i. drop i (x ∷ xs)) same

length-drop : {A : Type 0} (n : ℕ) (xs : List A) → length (drop n xs) ≡ length xs - n
length-drop zero xs = omega arith
length-drop (suc n) [] = omega arith
length-drop (suc n) (x ∷ xs) = omega (arith, length-drop n xs)

-- The packet has the fragment's mark.
unfoldable pub HasPart : (number : ℕ) → Incoming → Type 0
HasPart number m =
    (word : ℕ) × (get_elem? m.fragments (number / 32) ≡ some word)
    × (is_set word (number % 32) ≡ true)

-- The fragment's bytes are in the packet, between the bytes that were there before and behind.
unfoldable pub IsWritten : Part → (old new : List ℕ) → Type 0
IsWritten p old new =
    (before : List ℕ) × (others : List ℕ) × (behind : List ℕ) × (old ≡ before ++ (others ++ behind))
    × (new ≡ before ++ (p.bytes ++ behind))
    × (length before ≡ p.offset)
    × (length others ≡ length p.bytes)

write_at-IsWritten :
    (p : Part) (old : List ℕ)
    → p.offset + length p.bytes ≤ length old
    → (new : List ℕ) × (write_at p.offset p.bytes old ≡ done new) × IsWritten p old new
unfolding write_at IsWritten
write_at-IsWritten p old fits =
    let inside : ltb (length old) (p.offset + length p.bytes) ≡ false = ground arith in
    (
      take p.offset old ++ (p.bytes ++ drop (p.offset + length p.bytes) old),
      simp (inside) refl,
      (
        take p.offset old,
        take (length p.bytes) (drop p.offset old),
        drop (p.offset + length p.bytes) old,
        sym (
            ap (λ t. take p.offset old ++ (take (length p.bytes) (drop p.offset old) ++ t))
              (sym (drop-drop p.offset (length p.bytes) old))
            ∙ ap (λ t. take p.offset old ++ t) (take-drop (length p.bytes) (drop p.offset old))
            ∙ take-drop p.offset old),
        refl,
        length-take_le p.offset old (omega arith),
        length-take_le (length p.bytes) (drop p.offset old)
            (omega (arith, length-drop p.offset old)),
      ),
    )

-- What a fragment makes of the message that it belongs to: nothing when it is there; or its mark is
-- set, one fragment less is missing and its bytes are written.
unfoldable pub IsPlaced : Part → (old new : Incoming) → Type 0
IsPlaced p old new =
    (HasPart p.number old × (new ≡ old))
    ⊎ ((new.fragments_remaining ≡ sub32 old.fragments_remaining 1)
        × IsWritten p old.packet.bytes new.packet.bytes)

fitting-all :
    (p : Part) (size : ℕ)
    → p.offset + length p.bytes ≤ size
    → size < 4294967296
    → fitting p size ≡ p.bytes
unfolding fitting
fitting-all p size fits small =
    let within : ltb size (u32 (p.offset + length p.bytes)) ≡ false = ground arith in
    rw (within) refl

place-HasPart : (p : Part) (m : Incoming) → HasPart p.number m → place p m ≡ done m
unfolding place HasPart
place-HasPart p m (word, there, e) = simp (there, e) refl

place-new :
    (p : Part) (m : Incoming) (word : ℕ) (bytes : List ℕ)
    → get_elem? m.fragments (p.number / 32) ≡ some word
    → is_set word (p.number % 32) ≡ false
    → fitting p (length m.packet.bytes) ≡ p.bytes
    → write_at p.offset p.bytes m.packet.bytes ≡ done bytes
    → place p m ≡ done (marked p m word bytes)
unfolding place
place-new p m word bytes there e all written = simp (there, e, all, written) refl

-- When a fragment's bytes fit its packet, which is shorter than 2^32, and the message has a word for
-- its mark, placing the fragment succeeds: the message has the mark, and it is as before if it had
-- the mark before, or else one fragment less is missing and the packet has the fragment's bytes at
-- its offset and the other bytes as before. Placing a fragment of the same number again changes
-- nothing, whatever its bytes.
pub place_twice :
    (p q : Part) (m : Incoming)
    → p.offset + length p.bytes ≤ length m.packet.bytes
    → length m.packet.bytes < 4294967296
    → p.number / 32 < length m.fragments
    → q.number ≡ p.number
    → (m' : Incoming) × (place p m ≡ done m')
      × HasPart p.number m'
      × IsPlaced p m m'
      × (place q m' ≡ done m')
unfolding place HasPart IsPlaced
place_twice p q m fits small room same =
    let word = get_or m.fragments (p.number / 32) 0 in
    let there : get_elem? m.fragments (p.number / 32) ≡ some word =
      get_elem?-eq-get_or m.fragments (p.number / 32) 0 room in
    elim (Bool-cases (is_set word (p.number % 32))) [
      | inl e ↦
          let has : HasPart p.number m = (word, there, e) in
          (m, place-HasPart p m has, has, inl (has, refl), place-HasPart q m (rw (same) has))
      | inr e ↦
          let (bytes, written, between) = write_at-IsWritten p m.packet.bytes fits in
          let m' = marked p m word bytes in
          let has : HasPart p.number m' = (
            bit_set word (p.number % 32),
            get_elem?-set m.fragments (p.number / 32) (bit_set word (p.number % 32)) room,
            is_set-bit_set_any word (p.number % 32),
          ) in
          (
            m',
            place-new p m word bytes there e (fitting-all p (length m.packet.bytes) fits small)
                written,
            has,
            inr (refl, between),
            place-HasPart q m' (rw (same) has),
          )
    ]
