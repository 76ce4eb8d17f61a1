-- ===== src/Xudp/Host/Sharing.antt =====
-- The clients that the first loop of `_gekkota_xudp_throttle_bandwidth` (src/gekkota/gekkota_xudp.c)
-- leaves alone, and the second loop.
use gekkota.Base.{◌/◌, ℕ, zero, suc, ◌≤◌, ◌≡◌, refl, ap, ◌∙◌, arith, List, [], ◌∷◌}
use gekkota.Base.{true, false, Bool-cases, inl, inr}
use gekkota.Base.{Ends, length, ltb, ◌==◌, ◌&&◌, ◌||◌, not}
use gekkota.Xudp.Types.{Client}
use gekkota.Xudp.Client.Close.{is_open}
use gekkota.Xudp.Host.Progress.{
  pending, pending-left, pending-open, pending-more, pending-fewer, Progress, Progress-le,
}
use gekkota.Xudp.Host.Progress.{needs, needs-pos, needs-Progress, and_true, or_false}
use gekkota.Xudp.Host.Caps.{IsCapped, AllCapped, capped-IsCapped, ==-ne, Limited}
use gekkota.Xudp.Host.Bandwidth
use gekkota.Xudp.Host.Bandwidth.{Host, Budget, Throttling}

throttle_rest-AllCapped :
    (now throttle : ℕ) (cs : List Client)
    → throttle ≤ 32
    → AllCapped cs
    → AllCapped (Bandwidth.throttle_rest now throttle cs)
unfolding Bandwidth.throttle_rest AllCapped
throttle_rest-AllCapped now throttle [] small h = h
throttle_rest-AllCapped now throttle (c ∷ cs) small (h, all) =
    elim (Bool-cases (not (is_open c.state) || (c.outgoing_bandwidth_throttle_epoch == now))) [
      | inl e ↦ rw (e) (h, throttle_rest-AllCapped now throttle cs small all)
      | inr e ↦
          rw (e)
            (capped-IsCapped throttle c small, throttle_rest-AllCapped now throttle cs small all)
    ]

length-throttle_rest :
    (now throttle : ℕ) (cs : List Client)
    → length (Bandwidth.throttle_rest now throttle cs) ≡ length cs
unfolding Bandwidth.throttle_rest
length-throttle_rest now throttle [] = refl
length-throttle_rest now throttle (c ∷ cs) =
    elim (Bool-cases (not (is_open c.state) || (c.outgoing_bandwidth_throttle_epoch == now))) [
      | inl e ↦ rw (e) (ap suc (length-throttle_rest now throttle cs))
      | inr e ↦ rw (e) (ap suc (length-throttle_rest now throttle cs))
    ]

pub length-throttled_rest :
    (now count : ℕ) (t : Throttling)
    → Limited count t
    → length (Bandwidth.throttled_rest now t) ≡ count
unfolding Bandwidth.throttled_rest Limited
length-throttled_rest now count t (all, counted, small) =
    elim (Bool-cases (ltb 0 t.budget.remaining)) [
      | inl e ↦ rw (e) (length-throttle_rest now t.throttle t.clients ∙ counted)
      | inr e ↦ rw (e) counted
    ]

pub throttled_rest-AllCapped :
    (now count : ℕ) (t : Throttling) → Limited count t → AllCapped (Bandwidth.throttled_rest now t)
unfolding Bandwidth.throttled_rest Limited
throttled_rest-AllCapped now count t (all, counted, small) =
    elim (Bool-cases (ltb 0 t.budget.remaining)) [
      | inl e ↦ rw (e) (throttle_rest-AllCapped now t.throttle t.clients small all)
      | inr e ↦ rw (e) all
    ]

abbrev pub shared_left : (now : ℕ) → List Client → ℕ
shared_left now cs = pending (λ c. c.incoming_bandwidth_throttle_epoch) now cs

-- What a pass of the second loop makes of clients and a budget.
Shared : (now : ℕ) → List Client → Budget → List Client × Budget → Type 0
Shared now cs b r =
    AllCapped r.0 × Progress (shared_left now cs) (shared_left now r.0) b.adjusts r.1.adjusts

keeps_share-false :
    (now limit : ℕ) (c : Client)
    → Bandwidth.keeps_share now limit c ≡ false
    → (c.incoming_bandwidth_throttle_epoch == now) ≡ false
unfolding Bandwidth.keeps_share
keeps_share-false now limit c h = (or_false _ _ (or_false _ _ h).0).1

share_pass-Shared :
    (now limit : ℕ) (cs : List Client) (b : Budget)
    → AllCapped cs
    → Shared now cs b (Bandwidth.share_pass now limit cs b)
unfolding Bandwidth.share_pass Shared AllCapped Progress IsCapped
share_pass-Shared now limit [] b h = (h, inr (omega arith, refl))
share_pass-Shared now limit (c ∷ cs) b (h, all) =
    elim (Bool-cases (Bandwidth.keeps_share now limit c)) [
      | inl e ↦ rw (e) (kept (share_pass-Shared now limit cs b all))
      | inr e ↦ rw (e) (
          marked (==-ne c.incoming_bandwidth_throttle_epoch now (keeps_share-false now limit c e)) _
            (share_pass-Shared now limit cs _ all))
    ]
  where
    kept :
        Shared now cs b (Bandwidth.share_pass now limit cs b)
        → Shared now
            (c ∷ cs)
            b
            (c ∷ (Bandwidth.share_pass now limit cs b).0, (Bandwidth.share_pass now limit cs b).1)
    kept (all', inl less) = (
      (h, all'),
      inl (
          pending-fewer (λ d. d.incoming_bandwidth_throttle_epoch) now c cs
            (Bandwidth.share_pass now limit cs b).0 less),
    )
    kept (all', inr (le, same)) = (
      (h, all'),
      inr (
        pending-more (λ d. d.incoming_bandwidth_throttle_epoch) now c cs
            (Bandwidth.share_pass now limit cs b).0 le,
        same,
      ),
    )

    marked :
        (c.incoming_bandwidth_throttle_epoch ≡ now → ⊥)
        → (b' : Budget) → Shared now cs b' (Bandwidth.share_pass now limit cs b')
        → Shared now (c ∷ cs) b (
          record c { incoming_bandwidth_throttle_epoch = now }
              ∷ (Bandwidth.share_pass now limit cs b').0,
          (Bandwidth.share_pass now limit cs b').1,
        )
    marked fresh b' (all', steps) = (
      (h, all'),
      inl (
          omega (
            arith,
            pending-left (λ d. d.incoming_bandwidth_throttle_epoch) now
                (record c { incoming_bandwidth_throttle_epoch = now })
                (Bandwidth.share_pass now limit cs b').0 refl,
            pending-open (λ d. d.incoming_bandwidth_throttle_epoch) now c cs fresh,
            Progress-le (shared_left now cs)
                (shared_left now (Bandwidth.share_pass now limit cs b').0) b'.adjusts
                (Bandwidth.share_pass now limit cs b').1.adjusts steps,
          )),
    )

pub share_rounds-Ends :
    (now fuel : ℕ) (cs : List Client) (b : Budget) (limit : ℕ)
    → AllCapped cs
    → needs (shared_left now cs) b.adjusts ≤ fuel
    → Ends Unit (λ r. AllCapped r.0) (Bandwidth.share_rounds now fuel cs b limit)
unfolding Bandwidth.share_rounds Bandwidth.divided Shared
share_rounds-Ends now zero cs b limit all enough =
    absurd (omega (arith, needs-pos (shared_left now cs) 0 b.adjusts enough))
share_rounds-Ends now (suc fuel) cs b limit all enough =
    elim (Bool-cases (ltb 0 b.remaining && b.adjusts)) [
      | inr e ↦ rw (e) all
      | inl e ↦
          let some_left : (b.remaining == 0) ≡ false = left (and_true _ _ e).0 in
          let limit' =
            Bandwidth.share_pass now (b.bandwidth / b.remaining) cs
              (record b { adjusts = false }) in
          let (all', steps) =
            share_pass-Shared now (b.bandwidth / b.remaining) cs (record b { adjusts = false })
              all in
          rw (e, some_left)
            (share_rounds-Ends now fuel limit'.0 limit'.1 (b.bandwidth / b.remaining) all' (
              needs-Progress (shared_left now cs) (shared_left now limit'.0) fuel b.adjusts
                limit'.1.adjusts enough (and_true _ _ e).1 steps))
    ]
  where
    left : ltb 0 b.remaining ≡ true → (b.remaining == 0) ≡ false
    left h = ground arith
