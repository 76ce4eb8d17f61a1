-- ===== src/Xudp/Host/Caps.antt =====
-- The first loop of `_gekkota_xudp_throttle_bandwidth` (src/gekkota/gekkota_xudp.c).
use gekkota.Base.{ℕ, zero, suc, ◌*◌, ◌/◌, ◌<◌, ◌≤◌, ◌≡◌, refl, ap, ◌∙◌, arith, List, [], ◌∷◌}
use gekkota.Base.{false, Bool-cases, ◌⊎◌, inl, inr}
use gekkota.Base.{Ends, >>=-Ends, u32, length, leb, ltb, ◌==◌, ◌&&◌}
use native.Mathlib.Nat.{div-lt_iff_lt-mul, mul-le-mul_right}
use gekkota.Xudp.Types.{Client}
use gekkota.Xudp.Host.Progress.{
  pending, pending-left, pending-open, pending-more, pending-fewer, Progress, Progress-le,
}
use gekkota.Xudp.Host.Progress.{needs, needs-pos, needs-Progress, and_true, or_false}
use gekkota.Xudp.Host.Bandwidth
use gekkota.Xudp.Host.Bandwidth.{Host, Budget, Throttling}

-- The limit of the packet throttle is at most the scale, 32, and the throttle at most the limit.
unfoldable pub IsCapped : Client → Type 0
IsCapped c = (c.packet_throttle_limit ≤ 32) × (c.packet_throttle ≤ c.packet_throttle_limit)

unfoldable pub AllCapped : List Client → Type 0
AllCapped [] = Unit
AllCapped (c ∷ cs) = IsCapped c × AllCapped cs

pub capped-IsCapped : (limit : ℕ) (c : Client) → limit ≤ 32 → IsCapped (Bandwidth.capped limit c)
unfolding Bandwidth.capped IsCapped
capped-IsCapped limit c h = (h, ground arith)

-- A quotient of a number that is not above 32 times the divisor.
div-le_32 : (a b : ℕ) → 0 < b → a ≤ 32 * b → a / b ≤ 32
div-le_32 a b h k =
    let less : a < 33 * b = omega arith in
    let small : a / b < 33 = (div-lt_iff_lt-mul h).1 less in omega (arith, small)

scaled-le : (a b : ℕ) → a ≤ b → u32 (a * 32) ≤ 32 * b
scaled-le a b h = omega arith

at_least_one-le : (n : ℕ) → n ≤ 32 → Bandwidth.at_least_one n ≤ 32
unfolding Bandwidth.at_least_one
at_least_one-le n h = ground arith

pub ==-ne : (a b : ℕ) → (a == b) ≡ false → a ≡ b → ⊥
==-ne a b h k = ground arith

throttle_for-Ends : (b : Budget) → Ends Unit (λ t. t ≤ 32) (Bandwidth.throttle_for b)
unfolding Bandwidth.throttle_for Bandwidth.divided
throttle_for-Ends b = elim (Bool-cases (ltb b.data_total b.bandwidth)) [
  | inl e ↦ rw (e) (omega arith)
  | inr e ↦ elim (Bool-cases (b.data_total == 0)) [
    | inl k ↦ rw (e, k) tt
    | inr k ↦ rw (e, k) (div-le_32 _ _ (ground arith) (scaled-le _ _ (ground arith)))
  ]
]

abbrev pub limited_left : (now : ℕ) → List Client → ℕ
limited_left now cs = pending (λ c. c.outgoing_bandwidth_throttle_epoch) now cs

module _ (now share throttle : ℕ) (small : throttle ≤ 32) where
  -- What a pass makes of clients and a budget: fewer are left to limit, unless it does nothing.
  Passed : List Client → Budget → List Client × Budget → Type 0
  Passed cs b r =
      AllCapped r.0
      × (length r.0 ≡ length cs)
      × Progress (limited_left now cs) (limited_left now r.0) b.adjusts r.1.adjusts

  limit_divides :
      (c : Client)
      → leb (u32 (throttle * c.outgoing_data_total) / 32) share ≡ false
      → share < c.outgoing_data_total
  limit_divides c h =
      let most : throttle * c.outgoing_data_total ≤ 32 * c.outgoing_data_total =
        mul-le-mul_right c.outgoing_data_total small in
      let over : share < u32 (throttle * c.outgoing_data_total) / 32 = ground arith in
      omega (arith, most, over)

  is_passed-false :
      (c : Client)
      → Bandwidth.is_passed now share throttle c ≡ false
      → ((c.outgoing_bandwidth_throttle_epoch == now) ≡ false) × (share < c.outgoing_data_total)
  unfolding Bandwidth.is_passed
  is_passed-false c h =
      let (early, over) = or_false _ _ h in
      let (first, epoch) = or_false _ _ early in (epoch, limit_divides c over)

  OnePassed : Client → Budget → Client × Budget → Type 0
  OnePassed c b r =
      IsCapped r.0
      × (((c.outgoing_bandwidth_throttle_epoch ≡ now → ⊥)
            × (r.0.outgoing_bandwidth_throttle_epoch ≡ now))
          ⊎ (r ≡ (c, b)))

  limit_one-Ends :
      (c : Client) (b : Budget)
      → IsCapped c
      → Ends Unit (OnePassed c b) (Bandwidth.limit_one now share throttle c b)
  unfolding Bandwidth.limit_one Bandwidth.is_passed Bandwidth.limited_to Bandwidth.divided OnePassed
      IsCapped
  limit_one-Ends c b h = elim (Bool-cases (Bandwidth.is_passed now share throttle c)) [
    | inl e ↦ rw (e) (h, inr refl)
    | inr e ↦
        let (epoch, less) = is_passed-false c e in
        let limit = u32 (share * 32) / c.outgoing_data_total in
        let some_data : (c.outgoing_data_total == 0) ≡ false = ground arith in
        rw (e, some_data)
          (
            capped-IsCapped (Bandwidth.at_least_one limit) c
                (at_least_one-le limit (div-le_32 _ _ (omega arith) (scaled-le _ _ (omega arith)))),
            inl (==-ne c.outgoing_bandwidth_throttle_epoch now epoch, refl),
          )
  ]

  Passed-cons :
      (c : Client) (cs : List Client) (b : Budget) (t : Client × Budget) (r : List Client × Budget)
      → OnePassed c b t
      → Passed cs t.1 r
      → Passed (c ∷ cs) b (t.0 ∷ r.0, r.1)
  unfolding Passed OnePassed AllCapped Progress
  Passed-cons c cs b t r (capped, inl (fresh, marked)) (all, same_length, steps) = (
    (capped, all),
    ap suc same_length,
    inl (
        omega (
          arith,
          pending-left (λ d. d.outgoing_bandwidth_throttle_epoch) now t.0 r.0 marked,
          pending-open (λ d. d.outgoing_bandwidth_throttle_epoch) now c cs fresh,
          Progress-le (limited_left now cs) (limited_left now r.0) t.1.adjusts r.1.adjusts steps,
        )),
  )
  Passed-cons c cs b t r (capped, inr same) (all, same_length, inl h) = (
    (capped, all),
    ap suc same_length,
    inl (
        rw (ap (λ p. p.0) same)
          (pending-fewer (λ d. d.outgoing_bandwidth_throttle_epoch) now c cs r.0 h)),
  )
  Passed-cons c cs b t r (capped, inr same) (all, same_length, inr (h, e)) = (
    (capped, all),
    ap suc same_length,
    inr (
      rw (ap (λ p. p.0) same)
          (pending-more (λ d. d.outgoing_bandwidth_throttle_epoch) now c cs r.0 h),
      e ∙ ap (λ p. p.1.adjusts) same,
    ),
  )

  limit_pass-Ends :
      (cs : List Client) (b : Budget)
      → AllCapped cs
      → Ends Unit (Passed cs b) (Bandwidth.limit_pass now share throttle cs b)
  unfolding Bandwidth.limit_pass Passed AllCapped OnePassed Progress
  limit_pass-Ends [] b h = (h, refl, inr (omega arith, refl))
  limit_pass-Ends (c ∷ cs) b (h, all) =
      >>=-Ends Unit (OnePassed c b) (Passed (c ∷ cs) b) (Bandwidth.limit_one now share throttle c b)
        _ (limit_one-Ends c b h)
        (λ t one.
          >>=-Ends Unit (Passed cs t.1) (Passed (c ∷ cs) b)
            (Bandwidth.limit_pass now share throttle cs t.1) _ (limit_pass-Ends cs t.1 all)
            (λ r rest. Passed-cons c cs b t r one rest))

-- What the first loop leaves.
unfoldable pub Limited : (count : ℕ) → Throttling → Type 0
Limited count t = AllCapped t.clients × (length t.clients ≡ count) × (t.throttle ≤ 32)

pub limit_rounds-Ends :
    (now share fuel count : ℕ) (cs : List Client) (b : Budget) (throttle : ℕ)
    → AllCapped cs
    → length cs ≡ count
    → throttle ≤ 32
    → needs (limited_left now cs) b.adjusts ≤ fuel
    → Ends Unit (Limited count) (Bandwidth.limit_rounds now share fuel cs b throttle)
unfolding Bandwidth.limit_rounds Limited Passed
limit_rounds-Ends now share zero count cs b throttle all counted small enough =
    absurd (omega (arith, needs-pos (limited_left now cs) 0 b.adjusts enough))
limit_rounds-Ends now share (suc fuel) count cs b throttle all counted small enough =
    elim (Bool-cases (ltb 0 b.remaining && b.adjusts)) [
      | inr e ↦ rw (e) (all, counted, small)
      | inl e ↦ rw (e) (
          >>=-Ends Unit (λ t. t ≤ 32) (Limited count) (Bandwidth.throttle_for b) _
            (throttle_for-Ends b)
            (λ t less.
              >>=-Ends Unit (Passed now share t less cs (record b { adjusts = false }))
                (Limited count) (Bandwidth.limit_pass now share t cs (record b { adjusts = false }))
                _ (limit_pass-Ends now share t less cs (record b { adjusts = false }) all)
                (λ r passed.
                  limit_rounds-Ends now share fuel count r.0 r.1 t passed.0 (passed.1 ∙ counted)
                    less
                    (needs-Progress (limited_left now cs) (limited_left now r.0) fuel b.adjusts
                      r.1.adjusts enough (and_true _ _ e).1 passed.2))))
    ]
