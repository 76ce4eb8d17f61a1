-- ===== src/Intrusive/Inserts.antt =====
-- `gekkota_list_insert` (src/gekkota/gekkota_list.c) on rings.
use gekkota.Base.{
  append-nil, ℕ, ◌≡◌, ◌≢◌, refl, sym, ◌∙◌, arith, List, [], ◌∷◌, ◌++◌, true, false, ok, done,
}
use gekkota.Base.{◌==◌}
use gekkota.Intrusive.{Links, updated, link, insert}
use gekkota.Intrusive.Rings.{
  IsFresh, AreDistinct, AreApart, IsChain, IsRing, IsChain-split, IsChain-join, previous-ne,
}
use gekkota.Intrusive.Rings.{
  previous-IsFresh, IsFrame, IsChain-frame, IsChain-relink, IsFresh-append, AreDistinct-append,
  AreDistinct-insert,
}

pub ne→==_false : (a b : ℕ) → (a ≡ b → ⊥) → (a == b) ≡ false
ne→==_false a b h = ground arith

pub updated_eq : (f : ℕ → ℕ) (a v : ℕ) → updated f a v a ≡ v
updated_eq f a v = let own : (a == a) ≡ true = ground arith in rw (own) refl

pub updated_ne : (f : ℕ → ℕ) (a v i : ℕ) → (i ≡ a → ⊥) → updated f a v i ≡ f i
updated_ne f a v i h = rw (ne→==_false i a h) refl

-- The first of a list, or the sentinel.
abbrev pub head_or : (list : ℕ) → List ℕ → ℕ
head_or s [] = s
head_or s (y ∷ ys) = y

module _ (h : Links) (it e : ℕ) where
  -- The links after the assignments.
  abbrev linked : Links
  linked = record {
    next = updated (updated h.next e it) (h.previous it) e;
    previous = updated (updated h.previous e (h.previous it)) it e;
  }

  insert_lem :
      (e ≡ 0 → ⊥)
      → (it ≡ 0 → ⊥)
      → (h.previous it ≡ 0 → ⊥)
      → h.next e ≡ 0
      → h.previous e ≡ 0
      → insert h it e ≡ done (linked, ok e)
  unfolding insert link
  insert_lem e0 it0 p0 n q =
      let next_none : (h.next e == 0) ≡ true = ground arith in
      let previous_none : (h.previous e == 0) ≡ true = ground arith in
      let own : (e == e) ≡ true = ground arith in
      simp
        (
          own,
          ne→==_false e 0 e0,
          ne→==_false it 0 it0,
          ne→==_false (h.previous it) 0 p0,
          next_none,
          previous_none,
        )
        refl

  linked-IsFrame : IsFrame h linked e (h.previous it) it
  linked-IsFrame = record {
    same_next = λ i ne np.
        updated_ne (updated h.next e it) (h.previous it) e i np ∙ updated_ne h.next e it i ne;
    same_previous = λ i ne nv.
        updated_ne (updated h.previous e (h.previous it)) it e i nv
        ∙ updated_ne h.previous e (h.previous it) i ne;
  }

pub IsChain-head_or :
    (h : Links) (s : ℕ) (front back : List ℕ)
    → IsChain h s (front ++ back) s
    → IsChain h s front (head_or s back)
IsChain-head_or h s front [] c = rw (append-nil front) at c
IsChain-head_or h s front (y ∷ ys) c = (IsChain-split h s front y ys s c).0

pub head_or-IsFresh :
    (s : ℕ) (front back : List ℕ)
    → AreDistinct (s ∷ (front ++ back))
    → IsFresh (head_or s back) front × AreDistinct (s ∷ front) × AreApart (s ∷ front) back
unfolding AreDistinct AreApart IsFresh
head_or-IsFresh s front back distinct = by_back back (AreDistinct-append (s ∷ front) back distinct)
  where
    by_back :
        (back : List ℕ)
        → AreDistinct (s ∷ front) × AreDistinct back × AreApart (s ∷ front) back
        → IsFresh (head_or s back) front × AreDistinct (s ∷ front) × AreApart (s ∷ front) back
    by_back [] ((fresh, front'), others, apart) = (fresh, (fresh, front'), apart)
    by_back (y ∷ ys) (front', others, ((ne, fresh), apart)) = (fresh, front', ((ne, fresh), apart))

pub head_or-ne : (z s : ℕ) (back : List ℕ) → (z ≡ s → ⊥) → IsFresh z back → z ≡ head_or s back → ⊥
unfolding IsFresh
head_or-ne z s [] ne fresh same = ne same
head_or-ne z s (y ∷ ys) ne (first, rest) same = first same

-- What comes behind the new element.
behind-IsChain :
    (h h' : Links) (s e : ℕ) (front back : List ℕ)
    → IsFrame h h' e (h.previous (head_or s back)) (head_or s back)
    → IsChain h s (front ++ back) s
    → AreDistinct (s ∷ (front ++ back))
    → IsFresh e (s ∷ (front ++ back))
    → h'.next e ≡ head_or s back
    → h'.previous (head_or s back) ≡ e
    → IsChain h' e back s
unfolding IsChain IsFresh AreDistinct AreApart
behind-IsChain h h' s e front [] f chain distinct fresh n q = (n, q)
behind-IsChain h h' s e front (y ∷ ys) f chain distinct (es, fresh) n q =
    let (left, right) = IsChain-split h s front y ys s chain in
    let (own, (first, others), apart) = AreDistinct-append (s ∷ front) (y ∷ ys) distinct in
    let far = (IsFresh-append e front (y ∷ ys) fresh).1 in
    let away = previous-IsFresh h s front y (y ∷ ys) left apart in
    (
      n,
      q,
      IsChain-frame h h' e (h.previous y) y f y ys s far es away first (λ same. apart.0.0 same)
          right,
    )

-- Inserting an element that is in no list before the end of a list, or before one of its elements,
-- succeeds without a fault, and the list has the element there and the others as before. The ring
-- has no element at the address 0 and none twice.
pub insert-IsRing :
    (h : Links) (s : ℕ) (front back : List ℕ) (e : ℕ)
    → IsRing h s (front ++ back)
    → e ≢ 0
    → IsFresh e (s ∷ (front ++ back))
    → h.next e ≡ 0
    → h.previous e ≡ 0
    → (h' : Links) × (insert h (head_or s back) e ≡ done (h', ok e))
      × IsRing h' s (front ++ (e ∷ back))
unfolding IsRing AreDistinct IsFresh
insert-IsRing h s front back e (chain, ((zs, zero_fresh), distinct)) e0 fresh n q =
    let it = head_or s back in
    let p = h.previous it in
    let left = IsChain-head_or h s front back chain in
    let (it_fresh, own, apart) = head_or-IsFresh s front back distinct in
    let (e_front, e_back) = IsFresh-append e (s ∷ front) back fresh in
    let p0 : p ≡ 0 → ⊥ = λ same.
      previous-ne h s front it 0 left (zs, (IsFresh-append 0 front back zero_fresh).0) (sym same) in
    let it0 : it ≡ 0 → ⊥ =
      λ same. head_or-ne 0 s back zs (IsFresh-append 0 front back zero_fresh).1 (sym same) in
    let ep : e ≡ p → ⊥ = λ same. previous-ne h s front it e left e_front same in
    let eit : e ≡ it → ⊥ = head_or-ne e s back e_front.0 e_back in
    let h' = linked h it e in
    let next_e : h'.next e ≡ it =
      updated_ne (updated h.next e it) p e e ep ∙ updated_eq h.next e it in
    let previous_e : h'.previous e ≡ p =
      updated_ne (updated h.previous e p) it e e eit ∙ updated_eq h.previous e p in
    (
      h',
      insert_lem h it e e0 it0 p0 n q,
      (
        IsChain-join h' s front e back s
            (IsChain-relink h h' e p it (linked-IsFrame h it e) s front it e e_front it_fresh own
              refl (updated_eq (updated h.next e it) p e) previous_e left)
            (behind-IsChain h h' s e front back (linked-IsFrame h it e) chain distinct fresh next_e
              (updated_eq (updated h.previous e p) it e)),
        AreDistinct-insert e (0 ∷ s ∷ front) back ((zs, zero_fresh), distinct) (e0, fresh),
      ),
    )
