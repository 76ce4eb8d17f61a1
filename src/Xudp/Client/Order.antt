-- ===== src/Xudp/Client/Order.antt =====
-- The list of incoming reliable messages of a channel (src/gekkota/gekkota_xudpclient.c) stays in
-- order, away from the end of the 16 bits.
use gekkota.Base.{◌∙◌, ℕ, ◌<◌, ◌≤◌, ◌≡◌, refl, ap, ◌⊎◌, inl, inr, arith, List, [], ◌∷◌}
use gekkota.Base.{none, some, true, false, Bool-cases, leb, ltb, ◌==◌}
use gekkota.Base.{length, suc, lt→ltb, le→ltb_false}
use gekkota.Base.{ltb→lt, ltb_false→le}
use mathlib.Core.Path.{subst}
use gekkota.Xudp.Types.{Channel, Incoming, MessageType}
use gekkota.Xudp.Client.Incoming.{passed, placed, duplicate, scan, visit, compare_with, inserted}
use gekkota.Xudp.Client.Incoming.{reduced, reliable_key, queue_reliable, with_reliable}

-- The numbers of the messages increase from one above `low`.
unfoldable pub IsAbove : (low : ℕ) → List Incoming → Type 0
IsAbove low [] = Unit {0}
IsAbove low (m ∷ ms) = (low < m.reliable_sequence_number) × IsAbove m.reliable_sequence_number ms

-- One of the messages has the number.
unfoldable pub HasNumber : ℕ → List Incoming → Type 0
HasNumber n [] = ⊥
HasNumber n (m ∷ ms) = (m.reliable_sequence_number ≡ n) ⊎ HasNumber n ms

-- The message is one of them.
unfoldable pub IsIn : Incoming → List Incoming → Type 0
IsIn new [] = ⊥
IsIn new (m ∷ ms) = (m ≡ new) ⊎ IsIn new ms

pub IsIn→HasNumber :
    (new : Incoming) (n : ℕ) (ms : List Incoming)
    → new.reliable_sequence_number ≡ n
    → IsIn new ms
    → HasNumber n ms
unfolding IsIn HasNumber
IsIn→HasNumber new n [] own is = absurd is
IsIn→HasNumber new n (m ∷ ms) own (inl e) = inl (ap (λ t. t.reliable_sequence_number) e ∙ own)
IsIn→HasNumber new n (m ∷ ms) own (inr is) = inr (IsIn→HasNumber new n ms own is)

-- In an ordered list, the message next to the lower bound is the first.
pub IsIn-next :
    (low : ℕ) (new : Incoming) (ms : List Incoming)
    → IsAbove low ms
    → IsIn new ms
    → new.reliable_sequence_number ≡ suc low
    → (rest : List Incoming) × (ms ≡ new ∷ rest)
unfolding IsAbove IsIn
IsIn-next low new [] above is own = absurd is
IsIn-next low new (m ∷ ms) above (inl e) own = (ms, ap (λ t. t ∷ ms) e)
IsIn-next low new (m ∷ ms) (first, above) (inr is) own =
    absurd (omega (arith, IsIn-above m.reliable_sequence_number ms above is))
  where
    IsIn-above :
        (lower : ℕ) (ns : List Incoming)
        → IsAbove lower ns
        → IsIn new ns
        → lower < new.reliable_sequence_number
    IsIn-above lower [] a i = absurd i
    IsIn-above lower (k ∷ ns) (g, a) (inl e) = subst (λ t. lower < t.reliable_sequence_number) e g
    IsIn-above lower (k ∷ ns) (g, a) (inr i) =
        omega (arith, g, IsIn-above k.reliable_sequence_number ns a i)

lt_eq_gt : (a b : ℕ) → (a < b) ⊎ ((a ≡ b) ⊎ (b < a))
lt_eq_gt a b = elim (Bool-cases (ltb a b)) [
  | inl e ↦ inl (ltb→lt a b e)
  | inr e ↦ elim (Bool-cases (ltb b a)) [
    | inl k ↦ inr (inr (ltb→lt b a k))
    | inr k ↦ inr (inl (omega (arith, ltb_false→le a b e, ltb_false→le b a k)))
  ]
]

pub gt→leb_false : (a b : ℕ) → b < a → leb a b ≡ false
gt→leb_false a b h = ground arith

le→leb : (a b : ℕ) → a ≤ b → leb a b ≡ true
le→leb a b h = ground arith

IsAbove-weaken :
    (low other : ℕ) (ms : List Incoming) → other ≤ low → IsAbove low ms → IsAbove other ms
unfolding IsAbove
IsAbove-weaken low other [] h above = tt
IsAbove-weaken low other (m ∷ ms) h (first, above) = (omega arith, above)

module _ (new : Incoming) (n : ℕ) (small : n < 65536) (own : new.reliable_sequence_number ≡ n) where
  reduced_small : (other : ℕ) → reduced n other ≡ n
  unfolding reduced
  reduced_small other = rw (gt→leb_false 65536 n small) refl

  scan-IsAbove :
      (low : ℕ) (ms : List Incoming)
      → n ≤ low
      → IsAbove low ms
      → scan reliable_key new n ms ≡ passed n
  unfolding scan visit compare_with IsAbove
  scan-IsAbove low [] h above = refl
  scan-IsAbove low (m ∷ ms) h (first, above) =
      rw
        (
          scan-IsAbove m.reliable_sequence_number ms (omega arith) above,
          reduced_small m.reliable_sequence_number,
          gt→leb_false m.reliable_sequence_number n (omega arith),
        )
        refl

  -- How a scan of an ordered list ends.
  Ends : (low : ℕ) → List Incoming → Type 0
  Ends low ms =
      ((scan reliable_key new n ms ≡ passed n) × IsAbove n ms)
      ⊎ (((ms' : List Incoming) × (scan reliable_key new n ms ≡ placed ms')
            × IsAbove low ms'
            × IsIn new ms'
            × (length ms' ≡ suc (length ms)))
          ⊎ (scan reliable_key new n ms ≡ duplicate))

  Ends-∷ :
      (low : ℕ) (m : Incoming) (ms : List Incoming)
      → low < m.reliable_sequence_number
      → m.reliable_sequence_number < n
      → Ends m.reliable_sequence_number ms
      → Ends low (m ∷ ms)
  unfolding Ends scan visit compare_with IsAbove IsIn
  Ends-∷ low m ms h k (inl (e, above)) = inr (
      inl (
        m ∷ new ∷ ms,
        rw
            (
              e,
              reduced_small m.reliable_sequence_number,
              le→leb m.reliable_sequence_number n (omega arith),
              lt→ltb m.reliable_sequence_number n k,
            )
            refl,
        (h, (rw (own) k, rw (own) above)),
        inr (inl refl),
        refl,
      ))
  Ends-∷ low m ms h k (inr (inl (ms', e, above, has, more))) =
      inr (inl (m ∷ ms', rw (e) refl, (h, above), inr has, ap suc more))
  Ends-∷ low m ms h k (inr (inr e)) = inr (inr (rw (e) refl))

  scan-Ends : (low : ℕ) (ms : List Incoming) → low < n → IsAbove low ms → Ends low ms
  unfolding Ends scan visit compare_with IsAbove
  scan-Ends low [] h above = inl (refl, tt)
  scan-Ends low (m ∷ ms) h (first, above) = elim (lt_eq_gt m.reliable_sequence_number n) [
    | inl k ↦ Ends-∷ low m ms first k (scan-Ends m.reliable_sequence_number ms k above)
    | inr (inl k) ↦ inr (
        inr (
          rw
            (
              scan-IsAbove m.reliable_sequence_number ms (omega (arith, k)) above,
              reduced_small m.reliable_sequence_number,
              le→leb m.reliable_sequence_number n (omega (arith, k)),
              le→ltb_false m.reliable_sequence_number n (omega (arith, k)),
            )
            refl))
    | inr (inr k) ↦ inl (
      rw
          (
            scan-IsAbove m.reliable_sequence_number ms (omega (arith, k)) above,
            reduced_small m.reliable_sequence_number,
            gt→leb_false m.reliable_sequence_number n k,
          )
          refl,
      (k, above),
    )
  ]

  pub HasNumber-duplicate :
      (low : ℕ) (ms : List Incoming)
      → IsAbove low ms
      → HasNumber n ms
      → scan reliable_key new n ms ≡ duplicate
  unfolding scan visit compare_with IsAbove HasNumber
  HasNumber-duplicate low [] above has = absurd has
  HasNumber-duplicate low (m ∷ ms) (first, above) (inl e) =
      rw
        (
          scan-IsAbove m.reliable_sequence_number ms (omega arith) above,
          reduced_small m.reliable_sequence_number,
          le→leb m.reliable_sequence_number n (omega arith),
          le→ltb_false m.reliable_sequence_number n (omega arith),
        )
        refl
  HasNumber-duplicate low (m ∷ ms) (first, above) (inr has) =
      rw (HasNumber-duplicate m.reliable_sequence_number ms above has) refl

-- The list of a channel that is in order above the number handed out last.
unfoldable pub IsOrdered : Channel → Type 0
IsOrdered ch = IsAbove ch.incoming_reliable_sequence_number ch.incoming_reliable_messages

-- The message of a reliable type.
unfoldable pub IsReliable : MessageType → Type 0
IsReliable MessageType.data_fragment = Unit {0}
IsReliable MessageType.reliable_data = Unit {0}
IsReliable _ = ⊥

-- The channel has one more reliable message, `new`, and is in order; its number and its unreliable
-- messages are as before.
unfoldable pub HasGained : Channel → Incoming → Channel → Type 0
HasGained ch new ch' =
    (ch'.incoming_reliable_sequence_number ≡ ch.incoming_reliable_sequence_number)
    × (ch'.incoming_unreliable_messages ≡ ch.incoming_unreliable_messages)
    × IsOrdered ch'
    × IsIn new ch'.incoming_reliable_messages
    × (length ch'.incoming_reliable_messages ≡ suc (length ch.incoming_reliable_messages))

some_injective : {A : Type 0} {a b : A} → some a ≡ some b → a ≡ b
some_injective h = cc

pub none_ne : {A : Type 0} {a : A} → none ≡ some a → ⊥
none_ne h = cc

module _ (ch ch' : Channel) (new : Incoming) (n : ℕ) (small : n < 65536)
    (own : new.reliable_sequence_number ≡ n) where
  inserted-HasGained :
      Ends new n small own ch.incoming_reliable_sequence_number ch.incoming_reliable_messages
      → ch.incoming_reliable_sequence_number < n
      → with_reliable ch (
          inserted reliable_key new
            (scan reliable_key new n ch.incoming_reliable_messages)
            ch.incoming_reliable_messages)
        ≡ some ch'
      → HasGained ch new ch'
  unfolding Ends inserted with_reliable HasGained IsOrdered IsAbove IsIn
  inserted-HasGained (inl (e, above)) fresh h =
      subst (HasGained ch new) (some_injective (rw (e) at h))
        (refl, refl, (rw (own) fresh, rw (own) above), inl refl, refl)
  inserted-HasGained (inr (inl (ms', e, above, has, more))) fresh h =
      subst (HasGained ch new) (some_injective (rw (e) at h)) (refl, refl, above, has, more)
  inserted-HasGained (inr (inr e)) fresh h = absurd (none_ne (rw (e) at h))

  pub queue_reliable-HasGained :
      ch.incoming_reliable_sequence_number ≤ n
      → IsOrdered ch
      → queue_reliable ch new n ≡ some ch'
      → HasGained ch new ch'
  unfolding queue_reliable IsOrdered
  queue_reliable-HasGained fresh above h =
      elim (Bool-cases (n == ch.incoming_reliable_sequence_number)) [
        | inl e ↦ absurd (none_ne (rw (e) at h))
        | inr e ↦
            let less : ch.incoming_reliable_sequence_number < n = ground arith in
            inserted-HasGained
              (scan-Ends new n small own ch.incoming_reliable_sequence_number
                ch.incoming_reliable_messages less above)
              less (rw (e) at h)
      ]
