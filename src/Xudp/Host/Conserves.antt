-- ===== src/Xudp/Host/Conserves.antt =====
-- What `_gekkota_xudp_send_acknowledgements` and `_gekkota_xudp_send_reliable`
-- (src/gekkota/gekkota_xudp.c) keep.
use gekkota.Base.{ℕ, ◌<◌, ◌≤◌, ◌≡◌, refl, ap, ◌∙◌, arith, List, [], ◌∷◌, ◌++◌, append_assoc}
use gekkota.Base.{◌⊎◌, Option, none, some, false, Bool-cases, inl, inr}
use gekkota.Base.{is_empty, ◌==◌}
use gekkota.Xudp.Types.{Client, Outgoing, Packet}
use gekkota.Xudp.Host.Datagram.{Datagram}
use gekkota.Xudp.Host.Sending.{
  Filled, with_timeout, started, move_reliable, put_reliable, in_transit_with,
}
use gekkota.Xudp.Host.Sending.{exceeds_window, stop_reliable}
use gekkota.Xudp.Host.Sending.{fill_reliable, send_reliable}
use gekkota.Xudp.Host.Bounds.{Fits, Goes, reliable_verdict-cases, put_reliable-Fits}

-- The sequence numbers of messages.
abbrev pub numbers : List Outgoing → List ℕ
numbers [] = []
numbers (m ∷ ms) = m.reliable_sequence_number ∷ numbers ms

numbers-append : (xs ys : List Outgoing) → numbers (xs ++ ys) ≡ numbers xs ++ numbers ys
numbers-append [] ys = refl
numbers-append (x ∷ xs) ys = ap (λ t. x.reliable_sequence_number ∷ t) (numbers-append xs ys)

-- The data in transit are as they were, or within the window.
unfoldable pub Within : (before after : Client) → Type 0
Within before after =
    (after.reliable_data_in_transit ≡ before.reliable_data_in_transit)
    ⊎ (after.reliable_data_in_transit ≤ before.window_size)

Within-trans :
    (a b c : Client) → b.window_size ≡ a.window_size → Within a b → Within b c → Within a c
unfolding Within
Within-trans a b c same (inl p) (inl q) = inl (q ∙ p)
Within-trans a b c same (inr p) (inl q) = inr (omega arith)
Within-trans a b c same p (inr q) = inr (omega arith)

module _ (now : ℕ) where
  with_timeout-number :
      (c : Client) (m : Outgoing)
      → (with_timeout c m).reliable_sequence_number ≡ m.reliable_sequence_number
  unfolding with_timeout
  with_timeout-number c m = elim (Bool-cases (m.round_trip_timeout == 0)) [
    | inl e ↦ rw (e) refl
    | inr e ↦ rw (e) refl
  ]

  -- What moving a message that goes leaves alone, and what it makes of the rest.
  move_reliable-Goes :
      (m : Outgoing) (c : Client) (d : Datagram)
      → Goes m c d
      → ((move_reliable now m c).mtu ≡ c.mtu)
        × ((move_reliable now m c).window_size ≡ c.window_size)
        × Within c (move_reliable now m c)
        × (numbers (move_reliable now m c).sent_reliable_messages
            ≡ numbers c.sent_reliable_messages ++ (m.reliable_sequence_number ∷ []))
  unfolding move_reliable started Goes exceeds_window in_transit_with Within
  move_reliable-Goes m c d (full, window, space) =
      elim (Bool-cases (is_empty c.sent_reliable_messages)) [
        | inl e ↦ (rw (e) refl, rw (e) refl, rw (e) (within_with m.packet window), rw (e) listed)
        | inr e ↦ (rw (e) refl, rw (e) refl, rw (e) (within_with m.packet window), rw (e) listed)
      ]
    where
      within_with :
          (p : Option Packet)
          → exceeds_window m p c ≡ false
          → (in_transit_with m p c.reliable_data_in_transit ≡ c.reliable_data_in_transit)
            ⊎ (in_transit_with m p c.reliable_data_in_transit ≤ c.window_size)
      within_with none w = inl refl
      within_with (some p) w = inr (ground arith)

      listed :
          numbers (c.sent_reliable_messages ++ (record (with_timeout c m) { sent_time = now } ∷ []))
          ≡ numbers c.sent_reliable_messages ++ (m.reliable_sequence_number ∷ [])
      listed =
          numbers-append c.sent_reliable_messages _
          ∙ ap (λ n. numbers c.sent_reliable_messages ++ (n ∷ [])) (with_timeout-number c m)

  -- What filling a datagram keeps.
  Keeps : (mtu : ℕ) → List Outgoing → Client → Filled → Type 0
  Keeps mtu queue c f =
      Fits mtu f.datagram
      × (f.client.window_size ≡ c.window_size)
      × Within c f.client
      × (numbers f.client.sent_reliable_messages ++ numbers f.client.outgoing_reliable_messages
          ≡ numbers c.sent_reliable_messages ++ numbers queue)

  fill_reliable-Keeps :
      (mtu : ℕ) (queue : List Outgoing) (c : Client) (d : Datagram)
      → mtu < 65536
      → c.mtu ≡ mtu
      → Fits mtu d
      → Keeps mtu queue c (fill_reliable now queue c d)
  unfolding fill_reliable stop_reliable Keeps Within
  fill_reliable-Keeps mtu [] c d small own fits = (fits, refl, inl refl, refl)
  fill_reliable-Keeps mtu (m ∷ queue) c d small own fits = elim (reliable_verdict-cases m c d) [
    | inl (more, e) ↦ rw (e) (fits, refl, inl refl, refl)
    | inr (e, g) ↦
        let (same_mtu, same_window, less, listed) = move_reliable-Goes m c d g in
        let (fits', window', within', listed') =
          fill_reliable-Keeps mtu queue (move_reliable now m c) (put_reliable m d) small
            (same_mtu ∙ own) (put_reliable-Fits mtu m c d small own fits g) in
        rw (e) (
          fits',
          window' ∙ same_window,
          Within-trans c (move_reliable now m c)
              (fill_reliable now queue (move_reliable now m c) (put_reliable m d)).client
              same_window less within',
          listed'
              ∙ ap (λ t. t ++ numbers queue) listed
              ∙ append_assoc (numbers c.sent_reliable_messages) (m.reliable_sequence_number ∷ [])
                  (numbers queue),
        )
  ]

-- For a 16-bit mtu, sending reliable messages into a datagram that is within the mtu and the arrays
-- of 32 messages and 65 buffers leaves it within them; the window stays the same; the data in
-- transit are as many as before, or within the window; and the messages sent followed by those that
-- are left are, by their numbers, the messages sent before followed by those that were queued.
pub send_reliable-conserves :
    (now mtu : ℕ) (c : Client) (d : Datagram)
    → mtu < 65536
    → c.mtu ≡ mtu
    → Fits mtu d
    → Fits mtu (send_reliable now c d).datagram
      × ((send_reliable now c d).client.window_size ≡ c.window_size)
      × (((send_reliable now c d).client.reliable_data_in_transit ≡ c.reliable_data_in_transit)
          ⊎ ((send_reliable now c d).client.reliable_data_in_transit ≤ c.window_size))
      × (numbers (send_reliable now c d).client.sent_reliable_messages
            ++ numbers (send_reliable now c d).client.outgoing_reliable_messages
          ≡ numbers c.sent_reliable_messages ++ numbers c.outgoing_reliable_messages)
unfolding send_reliable Keeps Within
send_reliable-conserves now mtu c d small own fits =
    fill_reliable-Keeps now mtu c.outgoing_reliable_messages c d small own fits
