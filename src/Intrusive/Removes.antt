-- ===== src/Intrusive/Removes.antt =====
-- `gekkota_list_remove` (src/gekkota/gekkota_list.c) on rings.
use gekkota.Base.{append-nil, ℕ, ◌≡◌, refl, sym, ap, ◌∙◌, List, [], ◌∷◌, ◌++◌, ok, done}
use gekkota.Intrusive.{Links, updated, unlink, remove}
use gekkota.Intrusive.Rings.{
  IsFresh, AreDistinct, AreApart, IsChain, IsRing, IsChain-split, IsChain-join, previous-ne,
}
use gekkota.Intrusive.Rings.{
  previous-IsFresh, IsFrame, IsChain-frame, IsChain-relink, IsFresh-append, AreDistinct-append,
  AreDistinct-remove,
}
use gekkota.Intrusive.Inserts.{
  ne→==_false, updated_eq, updated_ne, head_or, head_or-IsFresh, head_or-ne,
}

module _ (h : Links) (x : ℕ) where
  -- The links after the assignments.
  abbrev unlinked : Links
  unlinked = record {
    next = updated (updated h.next (h.previous x) (h.next x)) x 0;
    previous = updated (updated h.previous (h.next x) (h.previous x)) x 0;
  }

  remove_lem :
      (x ≡ 0 → ⊥)
      → (h.previous x ≡ 0 → ⊥)
      → (h.next x ≡ 0 → ⊥)
      → (x ≡ h.previous x → ⊥)
      → remove h x ≡ done (unlinked, ok x)
  unfolding remove unlink
  remove_lem x0 p0 n0 xp =
      simp
        (
          ne→==_false x 0 x0,
          ne→==_false (h.previous x) 0 p0,
          ne→==_false (h.next x) 0 n0,
          ne→==_false x (h.previous x) xp,
        )
        refl

  unlinked-IsFrame : IsFrame h unlinked x (h.previous x) (h.next x)
  unlinked-IsFrame = record {
    same_next = λ i ne np.
        updated_ne (updated h.next (h.previous x) (h.next x)) x 0 i ne
        ∙ updated_ne h.next (h.previous x) (h.next x) i np;
    same_previous = λ i ne nv.
        updated_ne (updated h.previous (h.next x) (h.previous x)) x 0 i ne
        ∙ updated_ne h.previous (h.next x) (h.previous x) i nv;
  }

next-head_or :
    (h : Links) (a : ℕ) (xs : List ℕ) (b : ℕ) → IsChain h a xs b → h.next a ≡ head_or b xs
unfolding IsChain
next-head_or h a [] b (n, q) = n
next-head_or h a (x ∷ xs) b (n, q, rest) = n

-- What is left behind the element.
left-IsChain :
    (h h' : Links) (s x : ℕ) (front back : List ℕ)
    → IsFrame h h' x (h.previous x) (head_or s back)
    → IsChain h' s front (head_or s back)
    → IsChain h s front x
    → IsChain h x back s
    → AreDistinct (s ∷ (front ++ back))
    → IsFresh x (s ∷ (front ++ back))
    → IsChain h' s (front ++ back) s
unfolding IsChain IsFresh AreDistinct AreApart
left-IsChain h h' s x front [] f relinked before chain distinct fresh =
    rw (append-nil front) relinked
left-IsChain h h' s x front (y ∷ ys) f relinked before (n, q, right) distinct (xs, fresh) =
    let (own, (first, others), apart) = AreDistinct-append (s ∷ front) (y ∷ ys) distinct in
    let far = (IsFresh-append x front (y ∷ ys) fresh).1 in
    let away = previous-IsFresh h s front x (y ∷ ys) before apart in
    IsChain-join h' s front y ys s relinked (
      IsChain-frame h h' x (h.previous x) y f y ys s far xs away first (λ same. apart.0.0 same)
        right)

-- Removing an element of a list succeeds without a fault; the list has the other elements, in
-- order, and the element can be inserted again, since its links are NULL. The ring has no element
-- at the address 0 and none twice.
pub remove-IsRing :
    (h : Links) (s : ℕ) (front back : List ℕ) (x : ℕ)
    → IsRing h s (front ++ (x ∷ back))
    → (h' : Links) × (remove h x ≡ done (h', ok x))
      × IsRing h' s (front ++ back)
      × (h'.next x ≡ 0)
      × (h'.previous x ≡ 0)
unfolding IsRing AreDistinct IsFresh
remove-IsRing h s front back x (chain, ((zs, zero_fresh), distinct)) =
    let (before, after) = IsChain-split h s front x back s chain in
    let n = h.next x in
    let p = h.previous x in
    let next : n ≡ head_or s back = next-head_or h x back s after in
    let (all, fresh) = AreDistinct-remove x (0 ∷ s ∷ front) back ((zs, zero_fresh), distinct) in
    let (rest_distinct, x_fresh) = AreDistinct-remove x (s ∷ front) back distinct in
    let (it_fresh, own, apart) = head_or-IsFresh s front back rest_distinct in
    let (x_front, x_back) = IsFresh-append x (s ∷ front) back x_fresh in
    let (zero_front, (zx, zero_back)) = IsFresh-append 0 front (x ∷ back) zero_fresh in
    let p0 : p ≡ 0 → ⊥ = λ same. previous-ne h s front x 0 before (zs, zero_front) (sym same) in
    let n0 : n ≡ 0 → ⊥ = λ same. head_or-ne 0 s back zs zero_back (sym same ∙ next) in
    let xp : x ≡ p → ⊥ = λ same. previous-ne h s front x x before x_front same in
    let xn : x ≡ n → ⊥ = λ same. head_or-ne x s back x_front.0 x_back (same ∙ next) in
    let h' = unlinked h x in
    let frame : IsFrame h h' x p (head_or s back) = rw⁻¹ (next) (unlinked-IsFrame h x) in
    let next_p : h'.next p ≡ head_or s back =
      updated_ne (updated h.next p n) x 0 p (λ same. xp (sym same))
      ∙ updated_eq h.next p n
      ∙ next in
    let previous_n : h'.previous (head_or s back) ≡ p =
      ap h'.previous (sym next)
      ∙ updated_ne (updated h.previous n p) x 0 n (λ same. xn (sym same))
      ∙ updated_eq h.previous n p in
    (
      h',
      remove_lem h x (λ same. zx (sym same)) p0 n0 xp,
      (
        left-IsChain h h' s x front back frame
            (IsChain-relink h h' x p (head_or s back) frame s front x (head_or s back) x_front
              it_fresh own refl next_p previous_n before)
            before after rest_distinct x_fresh,
        all,
      ),
      updated_eq (updated h.next p n) x 0,
      updated_eq (updated h.previous n p) x 0,
    )
