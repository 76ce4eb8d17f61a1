-- ===== src/Xudp/Host/Limits.antt =====
-- The datagrams of a client's turn in `_gekkota_xudp_send` (src/gekkota/gekkota_xudp.c) are within
-- its mtu.
use gekkota.Base.{zero, suc}
use gekkota.Base.{ℕ, ◌+◌, ◌≤◌, ◌≡◌, arith, List, [], ◌∷◌, ◌++◌, Option, none, some}
use gekkota.Base.{length, take, drop}
use gekkota.Xudp.Types.{Outgoing, Packet, Message, message_size, bit_set}
use gekkota.Xudp.Host.Datagram.{Datagram, Piece, of_message, of_data, add_message, add_data}
use gekkota.Xudp.Host.Sending

abbrev pub piece_size : Piece → ℕ
piece_size (of_message size m) = size
piece_size (of_data bytes) = length bytes

unfoldable pub total : List Piece → ℕ
total [] = 0
total (p ∷ ps) = piece_size p + total ps

total-append : (xs ys : List Piece) → total (xs ++ ys) ≡ total xs + total ys
unfolding total
total-append [] ys = omega arith
total-append (x ∷ xs) ys = omega (arith, total-append xs ys)

-- The size that is counted covers the header and all the buffers.
unfoldable pub Counts : Datagram → Type 0
Counts d = 12 + total d.buffers ≤ d.size

pub add_message-Counts :
    (size : ℕ) (m : Message) (d : Datagram) → Counts d → Counts (add_message size m d)
unfolding Counts total
add_message-Counts size m d h = omega (arith, total-append d.buffers (of_message size m ∷ []))

add_data-Counts :
    (len : ℕ) (bytes : List ℕ) (d : Datagram)
    → length bytes ≤ len
    → Counts d
    → Counts (add_data len bytes d)
unfolding Counts total
add_data-Counts len bytes d small h = omega (arith, total-append d.buffers (of_data bytes ∷ []))

length-take-le : {A : Type 0} (n : ℕ) (xs : List A) → length (take n xs) ≤ n
length-take-le zero xs = omega arith
length-take-le (suc n) [] = omega arith
length-take-le (suc n) (x ∷ xs) = omega (arith, length-take-le n xs)

pub put_reliable-Counts :
    (m : Outgoing) (d : Datagram) → Counts d → Counts (Sending.put_reliable m d)
unfolding Sending.put_reliable Sending.add_payload Counts
put_reliable-Counts m d h = with_packet m.packet
  where
    start : Datagram
    start =
        add_message (message_size m.message.message_type) m.message
          (record d { header_flags = bit_set d.header_flags 0 })

    with_packet : (p : Option Packet) → Counts (Sending.add_payload m p start)
    with_packet none = add_message-Counts (message_size m.message.message_type) m.message d h
    with_packet (some p) =
        add_data-Counts m.fragment_length (Sending.payload m p) start
          (length-take-le m.fragment_length (drop m.fragment_offset p.bytes))
          (add_message-Counts (message_size m.message.message_type) m.message d h)

pub put_unreliable-Counts :
    (m : Outgoing) (d : Datagram) → Counts d → Counts (Sending.put_unreliable m d)
unfolding Sending.put_unreliable Sending.put_packet Counts
put_unreliable-Counts m d h = with_packet m.packet
  where
    start : Datagram
    start = add_message (message_size m.message.message_type) m.message d

    with_packet : (p : Option Packet) → Counts (Sending.put_packet p start)
    with_packet none = add_message-Counts (message_size m.message.message_type) m.message d h
    with_packet (some p) =
        add_data-Counts (length p.bytes) p.bytes start (omega arith)
          (add_message-Counts (message_size m.message.message_type) m.message d h)
