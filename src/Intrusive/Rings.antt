-- ===== src/Intrusive/Rings.antt =====
-- The rings of nodes that the functions of src/gekkota/gekkota_list.c work on, as lists.
use gekkota.Base.{ℕ, ◌≡◌, sym, ap, ◌∙◌, List, [], ◌∷◌, ◌++◌}
use gekkota.Intrusive.{Links}

-- The number is none of the list.
unfoldable pub IsFresh : ℕ → List ℕ → Type 0
IsFresh a [] = Unit
IsFresh a (x ∷ xs) = (a ≡ x → ⊥) × IsFresh a xs

-- The numbers are different from each other, and from those of another list.
unfoldable pub AreDistinct : List ℕ → Type 0
AreDistinct [] = Unit
AreDistinct (x ∷ xs) = IsFresh x xs × AreDistinct xs

unfoldable pub AreApart : List ℕ → List ℕ → Type 0
AreApart xs [] = Unit
AreApart xs (y ∷ ys) = IsFresh y xs × AreApart xs ys

-- The links lead from one node through others to a last one, and back.
unfoldable pub IsChain : Links → (first : ℕ) → List ℕ → (last : ℕ) → Type 0
IsChain h a [] b = (h.next a ≡ b) × (h.previous b ≡ a)
IsChain h a (x ∷ xs) b = (h.next a ≡ x) × (h.previous x ≡ a) × IsChain h x xs b

-- A list with a sentinel and elements.
unfoldable pub IsRing : Links → (list : ℕ) → List ℕ → Type 0
IsRing h s xs = IsChain h s xs s × AreDistinct (0 ∷ s ∷ xs)

module _ (h : Links) where
  pub IsChain-split :
      (a : ℕ) (front : List ℕ) (y : ℕ) (back : List ℕ) (b : ℕ)
      → IsChain h a (front ++ (y ∷ back)) b
      → IsChain h a front y × IsChain h y back b
  unfolding IsChain
  IsChain-split a [] y back b (n, p, rest) = ((n, p), rest)
  IsChain-split a (x ∷ xs) y back b (n, p, rest) =
      let (left, right) = IsChain-split x xs y back b rest in ((n, p, left), right)

  pub IsChain-join :
      (a : ℕ) (front : List ℕ) (y : ℕ) (back : List ℕ) (b : ℕ)
      → IsChain h a front y
      → IsChain h y back b
      → IsChain h a (front ++ (y ∷ back)) b
  unfolding IsChain
  IsChain-join a [] y back b (n, p) right = (n, p, right)
  IsChain-join a (x ∷ xs) y back b (n, p, left) right =
      (n, p, IsChain-join x xs y back b left right)

  -- The node before the last one is on the chain.
  pub previous-ne :
      (a : ℕ) (xs : List ℕ) (b z : ℕ) → IsChain h a xs b → IsFresh z (a ∷ xs) → z ≡ h.previous b → ⊥
  unfolding IsChain IsFresh
  previous-ne a [] b z (n, p) (ne, rest) same = ne (same ∙ p)
  previous-ne a (x ∷ xs) b z (n, p, chain) (ne, rest) same = previous-ne x xs b z chain rest same

  pub previous-IsFresh :
      (a : ℕ) (xs : List ℕ) (b : ℕ) (zs : List ℕ)
      → IsChain h a xs b
      → AreApart (a ∷ xs) zs
      → IsFresh (h.previous b) zs
  unfolding IsFresh AreApart
  previous-IsFresh a xs b [] chain apart = tt
  previous-IsFresh a xs b (z ∷ zs) chain (fresh, apart) = (
    (λ same. previous-ne a xs b z chain fresh (sym same)),
    previous-IsFresh a xs b zs chain apart,
  )

-- Links that are as others but for the next node of `u` and `p` and the previous one of `u` and `v`.
pub record IsFrame (h h' : Links) (u p v : ℕ) : Type 0 where
  pub same_next : (i : ℕ) → (i ≡ u → ⊥) → (i ≡ p → ⊥) → h'.next i ≡ h.next i
  pub same_previous : (i : ℕ) → (i ≡ u → ⊥) → (i ≡ v → ⊥) → h'.previous i ≡ h.previous i

ne_sym : {a b : ℕ} → (a ≡ b → ⊥) → b ≡ a → ⊥
ne_sym f e = f (sym e)

module _ (h h' : Links) (u p v : ℕ) (f : IsFrame h h' u p v) where
  -- A chain away from what changed stays.
  pub IsChain-frame :
      (a : ℕ) (xs : List ℕ) (b : ℕ)
      → IsFresh u (a ∷ xs)
      → (u ≡ b → ⊥)
      → IsFresh p (a ∷ xs)
      → IsFresh v xs
      → (v ≡ b → ⊥)
      → IsChain h a xs b
      → IsChain h' a xs b
  unfolding IsChain IsFresh
  IsChain-frame a [] b (ua, us) ub (pa, ps) vs vb (n, q) =
      (f.same_next a (ne_sym ua) (ne_sym pa) ∙ n, f.same_previous b (ne_sym ub) (ne_sym vb) ∙ q)
  IsChain-frame a (x ∷ xs) b (ua, (ux, us)) ub (pa, ps) (vx, vs) vb (n, q, chain) = (
    f.same_next a (ne_sym ua) (ne_sym pa) ∙ n,
    f.same_previous x (ne_sym ux) (ne_sym vx) ∙ q,
    IsChain-frame x xs b (ux, us) ub ps vs vb chain,
  )

  -- A chain whose last link was turned to another node.
  pub IsChain-relink :
      (a : ℕ) (xs : List ℕ) (b t : ℕ)
      → IsFresh u (a ∷ xs)
      → IsFresh v xs
      → AreDistinct (a ∷ xs)
      → p ≡ h.previous b
      → h'.next p ≡ t
      → h'.previous t ≡ p
      → IsChain h a xs b
      → IsChain h' a xs t
  unfolding IsChain IsFresh AreDistinct
  IsChain-relink a [] b t (ua, us) vs distinct own to back (n, q) =
      let same : p ≡ a = own ∙ q in (ap h'.next (sym same) ∙ to, back ∙ same)
  IsChain-relink a (x ∷ xs) b t (ua, (ux, us)) (vx, vs) (fresh, distinct) own to back
        (n, q, chain) =
      (
        f.same_next a (ne_sym ua) (λ same. previous-ne h x xs b a chain fresh (same ∙ own)) ∙ n,
        f.same_previous x (ne_sym ux) (ne_sym vx) ∙ q,
        IsChain-relink x xs b t (ux, us) vs distinct own to back chain,
      )

module _ where
  pub IsFresh-append : (a : ℕ) (xs ys : List ℕ) → IsFresh a (xs ++ ys) → IsFresh a xs × IsFresh a ys
  unfolding IsFresh
  IsFresh-append a [] ys h = (tt, h)
  IsFresh-append a (x ∷ xs) ys (ne, h) =
      let (left, right) = IsFresh-append a xs ys h in ((ne, left), right)

  pub IsFresh-join : (a : ℕ) (xs ys : List ℕ) → IsFresh a xs → IsFresh a ys → IsFresh a (xs ++ ys)
  unfolding IsFresh
  IsFresh-join a [] ys h k = k
  IsFresh-join a (x ∷ xs) ys (ne, h) k = (ne, IsFresh-join a xs ys h k)

  AreApart-cons : (x : ℕ) (xs ys : List ℕ) → IsFresh x ys → AreApart xs ys → AreApart (x ∷ xs) ys
  unfolding AreApart IsFresh
  AreApart-cons x xs [] h k = tt
  AreApart-cons x xs (y ∷ ys) (ne, h) (fresh, k) = ((ne_sym ne, fresh), AreApart-cons x xs ys h k)

  AreApart-nil : (ys : List ℕ) → AreApart [] ys
  unfolding AreApart IsFresh
  AreApart-nil [] = tt
  AreApart-nil (y ∷ ys) = (tt, AreApart-nil ys)

  pub AreDistinct-append :
      (xs ys : List ℕ) → AreDistinct (xs ++ ys) → AreDistinct xs × AreDistinct ys × AreApart xs ys
  unfolding AreDistinct
  AreDistinct-append [] ys h = (tt, h, AreApart-nil ys)
  AreDistinct-append (x ∷ xs) ys (fresh, h) =
      let (left, right, apart) = AreDistinct-append xs ys h in
      let (near, far) = IsFresh-append x xs ys fresh in
      ((near, left), right, AreApart-cons x xs ys far apart)

  pub AreDistinct-insert :
      (e : ℕ) (xs ys : List ℕ)
      → AreDistinct (xs ++ ys)
      → IsFresh e (xs ++ ys)
      → AreDistinct (xs ++ (e ∷ ys))
  unfolding AreDistinct IsFresh
  AreDistinct-insert e [] ys h fresh = (fresh, h)
  AreDistinct-insert e (x ∷ xs) ys (own, h) (ne, fresh) =
      let (near, far) = IsFresh-append x xs ys own in
      (IsFresh-join x xs (e ∷ ys) near (ne_sym ne, far), AreDistinct-insert e xs ys h fresh)

  pub AreDistinct-remove :
      (e : ℕ) (xs ys : List ℕ)
      → AreDistinct (xs ++ (e ∷ ys))
      → AreDistinct (xs ++ ys) × IsFresh e (xs ++ ys)
  unfolding AreDistinct IsFresh
  AreDistinct-remove e [] ys (fresh, h) = (h, fresh)
  AreDistinct-remove e (x ∷ xs) ys (own, h) =
      let (near, (ne, far)) = IsFresh-append x xs (e ∷ ys) own in
      let (distinct, fresh) = AreDistinct-remove e xs ys h in
      ((IsFresh-join x xs ys near far, distinct), (ne_sym ne, fresh))
