-- ===== src/Xudp/Host/Progress.antt =====
-- The loops of `_gekkota_xudp_throttle_bandwidth` (src/gekkota/gekkota_xudp.c) mark clients by an
-- epoch of theirs, each once: this bounds their rounds.
use gekkota.Base.{
  ℕ, suc, ◌+◌, ◌<◌, ◌≤◌, ◌≡◌, refl, arith, List, [], ◌∷◌, Bool, true, false, ◌⊎◌, inl, inr,
}
use gekkota.Base.{◌==◌, ◌&&◌, ◌||◌, if◌then◌else◌}
use gekkota.Xudp.Types.{Client}

-- How many clients a loop may still mark, by an epoch of theirs.
unfoldable pub pending : (epoch : Client → ℕ) (now : ℕ) → List Client → ℕ
pending epoch now [] = 0
pending epoch now (c ∷ cs) =
    let rest = pending epoch now cs in if epoch c == now then rest else suc rest

module _ (epoch : Client → ℕ) (now : ℕ) (c : Client) (cs : List Client) where
  pub pending-left : epoch c ≡ now → pending epoch now (c ∷ cs) ≡ pending epoch now cs
  unfolding pending
  pending-left h = ground arith

  pub pending-open : (epoch c ≡ now → ⊥) → pending epoch now (c ∷ cs) ≡ suc (pending epoch now cs)
  unfolding pending
  pending-open h = ground arith

  pub pending-more :
      (ds : List Client)
      → pending epoch now ds ≤ pending epoch now cs
      → pending epoch now (c ∷ ds) ≤ pending epoch now (c ∷ cs)
  unfolding pending
  pending-more ds h = ground arith

  pub pending-fewer :
      (ds : List Client)
      → pending epoch now ds < pending epoch now cs
      → pending epoch now (c ∷ ds) < pending epoch now (c ∷ cs)
  unfolding pending
  pending-fewer ds h = ground arith

-- What a pass over clients makes of those to mark: fewer are left, unless it does nothing.
unfoldable pub Progress : (before after : ℕ) (adjusted adjusts : Bool) → Type 0
Progress before after adjusted adjusts =
    (after < before) ⊎ ((after ≤ before) × (adjusts ≡ adjusted))

pub Progress-le :
    (before after : ℕ) (adjusted adjusts : Bool)
    → Progress before after adjusted adjusts
    → after ≤ before
unfolding Progress
Progress-le before after adjusted adjusts (inl h) = omega arith
Progress-le before after adjusted adjusts (inr (h, e)) = h

-- The fuel that a loop needs.
unfoldable pub needs : ℕ → Bool → ℕ
needs n true = n + 2
needs n false = 1

pub needs-pos : (n fuel : ℕ) (a : Bool) → needs n a ≤ fuel → 0 < fuel
unfolding needs
needs-pos n fuel true h = omega arith
needs-pos n fuel false h = omega arith

pub needs-Progress :
    (before after fuel : ℕ) (adjusted adjusts : Bool)
    → needs before adjusted ≤ suc fuel
    → adjusted ≡ true
    → Progress before after false adjusts
    → needs after adjusts ≤ fuel
unfolding needs Progress
needs-Progress before after fuel true true h k (inl less) = omega arith
needs-Progress before after fuel true false h k (inl less) = omega arith
needs-Progress before after fuel true true h k (inr (le, e)) = cc
needs-Progress before after fuel true false h k (inr (le, e)) = omega arith
needs-Progress before after fuel false adjusts h k step = cc

pub and_true : (a b : Bool) → (a && b) ≡ true → (a ≡ true) × (b ≡ true)
and_true true b h = (refl, h)
and_true false b h = cc

pub or_false : (a b : Bool) → (a || b) ≡ false → (a ≡ false) × (b ≡ false)
or_false true b p = cc
or_false false b p = (refl, p)
