-- ===== src/Xudp/Host/Bounds.antt =====
-- What the loops that fill a datagram keep (src/gekkota/gekkota_xudp.c).
use gekkota.Base.{ℕ, ◌+◌, ◌-◌, ◌<◌, ◌≤◌, ◌≡◌, refl, arith, [], ◌∷◌, ◌++◌}
use gekkota.Base.{
  Option, none, some, Bool, true, false, Bool-cases, ◌⊎◌, inl, inr, length, length-append,
}
use gekkota.Xudp.Types.{Client, Acknowledgement, Outgoing, Packet, message_size, Message, bit_set}
use gekkota.Xudp.Host.Datagram.{Datagram, of_message, of_data, room, buffer_count, add_message}
use gekkota.Xudp.Host.Datagram.{max_messages, max_buffers}
use gekkota.Xudp.Host.Sending.{is_disconnect, acknowledge_one}
use gekkota.Xudp.Host.Sending.{is_full_for_acknowledgement, is_full_for}
use gekkota.Xudp.Host.Sending.{payload, put_reliable, add_payload}
use gekkota.Xudp.Host.Sending.{exceeds_window, exceeds_room, goes, stops, reliable_verdict}

-- The datagram is no longer than the mtu, and its messages and buffers are within the arrays.
unfoldable pub Fits : (mtu : ℕ) → Datagram → Type 0
Fits mtu d =
    (d.size ≤ mtu) × (length d.messages ≤ max_messages) × (length d.buffers + 1 ≤ max_buffers)

pub room-Fits : (mtu : ℕ) (d : Datagram) → mtu < 65536 → d.size ≤ mtu → room mtu d ≡ mtu - d.size
unfolding room
room-Fits mtu d h k = omega arith

pub is_full_for_acknowledgement-false :
    (c : Client) (d : Datagram)
    → c.mtu < 65536
    → d.size ≤ c.mtu
    → is_full_for_acknowledgement c d ≡ false
    → (length d.messages < 32) × (length d.buffers + 1 < 65) × (d.size + 10 ≤ c.mtu)
unfolding is_full_for_acknowledgement buffer_count
is_full_for_acknowledgement-false c d small fits h = ground (arith, room-Fits c.mtu d small fits)

pub add_message-Fits :
    (mtu size : ℕ) (m : Message) (d : Datagram)
    → length d.messages < 32
    → length d.buffers + 1 < 65
    → d.size + size ≤ mtu
    → Fits mtu (add_message size m d)
unfolding Fits
add_message-Fits mtu size m d h k l = (
  l,
  omega (arith, length-append d.messages (m ∷ [])),
  omega (arith, length-append d.buffers (of_message size m ∷ [])),
)

pub acknowledge_one-mtu : (a : Acknowledgement) (c : Client) → (acknowledge_one a c).mtu ≡ c.mtu
unfolding acknowledge_one
acknowledge_one-mtu a c = elim (Bool-cases (is_disconnect a.message.message_type)) [
  | inl e ↦ rw (e) refl
  | inr e ↦ rw (e) refl
]

pub is_full_for-false :
    (size : ℕ) (c : Client) (d : Datagram)
    → c.mtu < 65536
    → d.size ≤ c.mtu
    → is_full_for size c d ≡ false
    → (length d.messages < 32) × (length d.buffers + 2 < 65) × (d.size + size ≤ c.mtu)
unfolding is_full_for buffer_count
is_full_for-false size c d small fits h = ground (arith, room-Fits c.mtu d small fits)

-- What it takes for a message to go.
unfoldable pub Goes : Outgoing → Client → Datagram → Type 0
Goes m c d =
    (is_full_for (message_size m.message.message_type) c d ≡ false)
    × (exceeds_window m m.packet c ≡ false)
    × (exceeds_room m m.packet c d ≡ false)

pub reliable_verdict-cases :
    (m : Outgoing) (c : Client) (d : Datagram)
    → ((more : Bool) × (reliable_verdict m c d ≡ stops more))
      ⊎ ((reliable_verdict m c d ≡ goes) × Goes m c d)
unfolding reliable_verdict Goes
reliable_verdict-cases m c d =
    elim (Bool-cases (is_full_for (message_size m.message.message_type) c d)) [
      | inl e ↦ inl (true, rw (e) refl)
      | inr e ↦ elim (Bool-cases (exceeds_window m m.packet c)) [
        | inl k ↦ inl (false, rw (e, k) refl)
        | inr k ↦ elim (Bool-cases (exceeds_room m m.packet c d)) [
          | inl l ↦ inl (true, rw (e, k, l) refl)
          | inr l ↦ inr (rw (e, k, l) refl, (e, k, l))
        ]
      ]
    ]

pub put_reliable-Fits :
    (mtu : ℕ) (m : Outgoing) (c : Client) (d : Datagram)
    → mtu < 65536
    → c.mtu ≡ mtu
    → Fits mtu d
    → Goes m c d
    → Fits mtu (put_reliable m d)
unfolding Goes put_reliable Fits add_payload exceeds_room
put_reliable-Fits mtu m c d small own fits (full, window, space) =
    let (messages, buffers, size) =
      is_full_for-false (message_size m.message.message_type) c d (omega arith)
        (omega (arith, fits.0)) full in
    with_packet m.packet space messages buffers size
  where
    with_packet :
        (p : Option Packet)
        → exceeds_room m p c d ≡ false
        → length d.messages < 32
        → length d.buffers + 2 < 65
        → d.size + message_size m.message.message_type ≤ c.mtu
        → Fits mtu (
            add_payload m p (
              add_message
                (message_size m.message.message_type)
                m.message
                (record d { header_flags = bit_set d.header_flags 0 })))
    with_packet none space messages buffers size = (
      omega arith,
      omega (arith, length-append d.messages (m.message ∷ [])),
      omega (
        arith,
        length-append d.buffers (of_message (message_size m.message.message_type) m.message ∷ []),
      ),
    )
    with_packet (some p) space messages buffers size = (
      ground (arith, room-Fits c.mtu d (omega arith) (omega (arith, fits.0))),
      omega (arith, length-append d.messages (m.message ∷ [])),
      omega (
        arith,
        length-append
            (d.buffers ++ (of_message (message_size m.message.message_type) m.message ∷ []))
            (of_data (payload m p) ∷ []),
        length-append d.buffers (of_message (message_size m.message.message_type) m.message ∷ []),
      ),
    )
