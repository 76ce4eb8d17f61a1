-- ===== src/Xudp/Host/Filling.antt =====
-- The loops that fill a datagram (src/gekkota/gekkota_xudp.c) keep it within the client's mtu.
use gekkota.Base.{ℕ, ◌+◌, ◌<◌, ◌≤◌, ◌≡◌, refl, ◌∙◌, arith, List, [], ◌∷◌, ◌++◌, Option, none, some}
use gekkota.Base.{Bool, true, false, Bool-cases, inl, inr, NetOrder, length, length-append, ◌||◌}
use gekkota.Base.{is_some, is_empty}
use gekkota.Xudp.Types.{Client, Acknowledgement, Outgoing, Packet, message_size}
use gekkota.Xudp.Host.Datagram.{Datagram, of_message, of_data, add_message}
use gekkota.Xudp.Host.Sending
use gekkota.Xudp.Host.Sending.{Filled}
use gekkota.Xudp.Host.Bounds.{
  Fits, room-Fits, is_full_for-false, add_message-Fits, put_reliable-Fits,
}
use gekkota.Xudp.Host.Bounds.{
  reliable_verdict-cases, is_full_for_acknowledgement-false, acknowledge_one-mtu,
}
use gekkota.Xudp.Host.Limits.{
  Counts, add_message-Counts, put_reliable-Counts, put_unreliable-Counts,
}

-- What a loop leaves.
unfoldable pub Limited : (mtu : ℕ) → Filled → Type 0
Limited mtu f = (f.client.mtu ≡ mtu) × Fits mtu f.datagram × Counts f.datagram

module _ (mtu : ℕ) (small : mtu < 65536) where
  fill_acknowledgements-Limited :
      (o : NetOrder) (queue : List Acknowledgement) (c : Client) (d : Datagram)
      → c.mtu ≡ mtu
      → Fits mtu d
      → Counts d
      → Limited mtu (Sending.fill_acknowledgements o queue c d)
  unfolding Sending.fill_acknowledgements Fits Limited
  fill_acknowledgements-Limited o [] c d own fits counts = (own, fits, counts)
  fill_acknowledgements-Limited o (a ∷ queue) c d own fits counts =
      elim (Bool-cases (Sending.is_full_for_acknowledgement c d)) [
        | inl e ↦ rw (e) (own, fits, counts)
        | inr e ↦
            let (messages, buffers, size) =
              is_full_for_acknowledgement-false c d (omega arith) (omega (arith, fits.0)) e in
            rw (e) (
              fill_acknowledgements-Limited o queue (Sending.acknowledge_one a c)
                (add_message 10 (Sending.acknowledge_message o a) d) (acknowledge_one-mtu a c ∙ own)
                (add_message-Fits mtu 10 (Sending.acknowledge_message o a) d messages buffers
                  (omega arith))
                (add_message-Counts 10 (Sending.acknowledge_message o a) d counts))
      ]

  pub send_acknowledgements-Limited :
      (o : NetOrder) (c : Client) (d : Datagram)
      → c.mtu ≡ mtu
      → Fits mtu d
      → Counts d
      → Limited mtu (Sending.send_acknowledgements o c d)
  unfolding Sending.send_acknowledgements
  send_acknowledgements-Limited o c d own fits counts =
      fill_acknowledgements-Limited o c.acknowledgements c d own fits counts

  move_reliable-mtu :
      (now : ℕ) (m : Outgoing) (c : Client) → (Sending.move_reliable now m c).mtu ≡ c.mtu
  unfolding Sending.move_reliable Sending.started
  move_reliable-mtu now m c = elim (Bool-cases (is_empty c.sent_reliable_messages)) [
    | inl e ↦ rw (e) refl
    | inr e ↦ rw (e) refl
  ]

  fill_reliable-Limited :
      (now : ℕ) (queue : List Outgoing) (c : Client) (d : Datagram)
      → c.mtu ≡ mtu
      → Fits mtu d
      → Counts d
      → Limited mtu (Sending.fill_reliable now queue c d)
  unfolding Sending.fill_reliable Sending.stop_reliable Limited
  fill_reliable-Limited now [] c d own fits counts = (own, fits, counts)
  fill_reliable-Limited now (m ∷ queue) c d own fits counts = elim (reliable_verdict-cases m c d) [
    | inl (more, e) ↦ rw (e) (own, fits, counts)
    | inr (e, g) ↦ rw (e) (
        fill_reliable-Limited now queue (Sending.move_reliable now m c) (Sending.put_reliable m d)
          (move_reliable-mtu now m c ∙ own) (put_reliable-Fits mtu m c d small own fits g)
          (put_reliable-Counts m d counts))
  ]

  pub send_reliable-Limited :
      (now : ℕ) (c : Client) (d : Datagram)
      → c.mtu ≡ mtu
      → Fits mtu d
      → Counts d
      → Limited mtu (Sending.send_reliable now c d)
  unfolding Sending.send_reliable
  send_reliable-Limited now c d own fits counts =
      fill_reliable-Limited now c.outgoing_reliable_messages c d own fits counts

  put_unreliable-Fits :
      (m : Outgoing) (c : Client) (d : Datagram)
      → c.mtu ≡ mtu
      → Fits mtu d
      → Sending.is_full_for_unreliable m c d ≡ false
      → Fits mtu (Sending.put_unreliable m d)
  unfolding Sending.put_unreliable Sending.put_packet Sending.is_full_for_unreliable
      Sending.exceeds_room_whole Fits
  put_unreliable-Fits m c d own fits free =
      let (full, space) = or_false _ _ free in
      let (messages, buffers, size) =
        is_full_for-false (message_size m.message.message_type) c d (omega arith)
          (omega (arith, fits.0)) full in
      with_packet m.packet space messages buffers size
    where
      or_false : (a b : Bool) → (a || b) ≡ false → (a ≡ false) × (b ≡ false)
      or_false true b p = cc
      or_false false b p = (refl, p)

      with_packet :
          (p : Option Packet)
          → Sending.exceeds_room_whole m p c d ≡ false
          → length d.messages < 32
          → length d.buffers + 2 < 65
          → d.size + message_size m.message.message_type ≤ c.mtu
          → Fits mtu
              (Sending.put_packet p (add_message (message_size m.message.message_type) m.message d))
      with_packet none space messages buffers size =
          add_message-Fits mtu (message_size m.message.message_type) m.message d messages
            (omega arith) (omega arith)
      with_packet (some p) space messages buffers size = (
        ground (arith, room-Fits c.mtu d (omega arith) (omega (arith, fits.0))),
        omega (arith, length-append d.messages (m.message ∷ [])),
        omega (
          arith,
          length-append
              (d.buffers ++ (of_message (message_size m.message.message_type) m.message ∷ []))
              (of_data p.bytes ∷ []),
          length-append d.buffers (of_message (message_size m.message.message_type) m.message ∷ []),
        ),
      )

  move_unreliable-mtu : (m : Outgoing) (c : Client) → (Sending.move_unreliable m c).mtu ≡ c.mtu
  unfolding Sending.move_unreliable
  move_unreliable-mtu m c = elim (Bool-cases (is_some m.packet)) [
    | inl e ↦ rw (e) refl
    | inr e ↦ rw (e) refl
  ]

  throttled-mtu : (p : Option Packet) (c : Client) → (Sending.throttled p c).mtu ≡ c.mtu
  unfolding Sending.throttled
  throttled-mtu none c = refl
  throttled-mtu (some p) c = refl

  pub fill_unreliable-Limited :
      (queue : List Outgoing) (c : Client) (d : Datagram)
      → c.mtu ≡ mtu
      → Fits mtu d
      → Counts d
      → Limited mtu (Sending.fill_unreliable queue c d)
  unfolding Sending.fill_unreliable Limited
  fill_unreliable-Limited [] c d own fits counts = (own, fits, counts)
  fill_unreliable-Limited (m ∷ queue) c d own fits counts =
      elim (Bool-cases (Sending.is_full_for_unreliable m c d)) [
        | inl e ↦ rw (e) (own, fits, counts)
        | inr e ↦ elim (Bool-cases (Sending.is_dropped m.packet (Sending.throttled m.packet c))) [
          | inl k ↦
              rw (e, k)
                (fill_unreliable-Limited queue (Sending.throttled m.packet c) d
                  (throttled-mtu m.packet c ∙ own) fits counts)
          | inr k ↦
              rw (e, k)
                (fill_unreliable-Limited queue
                  (Sending.move_unreliable m (Sending.throttled m.packet c))
                  (Sending.put_unreliable m d)
                  (move_unreliable-mtu m (Sending.throttled m.packet c)
                    ∙ throttled-mtu m.packet c
                    ∙ own)
                  (put_unreliable-Fits m c d own fits e) (put_unreliable-Counts m d counts))
        ]
      ]
