-- ===== src/Xudp/Client/Receive.antt =====
-- `gekkota_xudpclient_receive` (src/gekkota/gekkota_xudpclient.c). The function `inflate` stands for
-- `_gekkota_xudpclient_inflate`, with the `errno` for NULL.
use gekkota.Base.{ℕ, ◌+◌, List, [], ◌∷◌, Option, none, some, Bool, true, false, Result, ok, err}
use gekkota.Base.{null_argument, argument_not_valid, u16, get_elem?, set, ltb, ◌==◌, not}
use gekkota.Base.{◌||◌, if◌then◌else◌}
use gekkota.Xudp.Types.{Client, Channel, Incoming, Packet, EndPoint, is_unreliable_data, is_set}
use gekkota.Xudp.Types.{compressed_flag}

-- The unreliable message to hand out, if there is one, and the channel without it.
unfoldable pub take_unreliable : Channel → List Incoming → Option (Incoming × Channel)
take_unreliable ch [] = none
take_unreliable ch (m ∷ ms) =
    if is_unreliable_data m.message.message_type
    then if m.reliable_sequence_number == ch.incoming_reliable_sequence_number
      then some (
        m,
        record ch {
          incoming_unreliable_sequence_number = m.unreliable_sequence_number;
          incoming_unreliable_messages = ms;
        },
      )
      else none
    else some (m, record ch { incoming_unreliable_messages = ms })

-- The number of the last fragment of a message, which may be its only one.
unfoldable pub last_number : Incoming → ℕ
last_number m =
    if ltb 0 m.fragment_count
    then u16 (m.reliable_sequence_number + m.fragment_count + 65535)
    else m.reliable_sequence_number

-- The same for a reliable message: the first, if it is complete and the next in sequence.
unfoldable pub take_reliable : Channel → List Incoming → Option (Incoming × Channel)
unfolding last_number
take_reliable ch [] = none
take_reliable ch (m ∷ ms) =
    if ltb 0 m.fragments_remaining
      || not (m.reliable_sequence_number == u16 (ch.incoming_reliable_sequence_number + 1))
    then none
    else some (
      m,
      record ch {
        incoming_reliable_sequence_number = last_number m;
        incoming_reliable_messages = ms;
      },
    )

unfoldable pub take_next :
    (is_member : Bool) → Channel → Option (Incoming × Channel) → Option (Incoming × Channel)
unfolding take_reliable
take_next is_member ch (some t) = some t
take_next true ch none = none
take_next false ch none = take_reliable ch ch.incoming_reliable_messages

unfoldable pub take_message : (is_member : Bool) → Channel → Option (Incoming × Channel)
unfolding take_unreliable take_next
take_message is_member ch =
    take_next is_member ch (take_unreliable ch ch.incoming_unreliable_messages)

module _ (inflate : Packet → Result Packet) where
  delivered : Result Packet → EndPoint → Result (Option (Packet × EndPoint))
  delivered (ok p) from = ok (some (p, from))
  delivered (err e) from = err e

  hand_out : Client → ℕ → Option (Incoming × Channel) → Client × Result (Option (Packet × EndPoint))
  unfolding delivered
  hand_out c channel_id none = (c, ok none)
  hand_out c channel_id (some (m, ch)) = (
    record c { channels = set c.channels channel_id ch },
    delivered (if is_set m.packet.flags compressed_flag then inflate m.packet else ok m.packet)
        m.remote_endpoint,
  )

  receive_on : Client → ℕ → Option Channel → Client × Result (Option (Packet × EndPoint))
  unfolding take_message hand_out
  receive_on c channel_id none = (c, err argument_not_valid)
  receive_on c channel_id (some ch) =
      hand_out c channel_id (take_message c.is_multicast_group_member ch)

  -- `ok none` is the result 0, `ok (some _)` the result 1.
  unfoldable pub receive : Option Client → ℕ → Option Client × Result (Option (Packet × EndPoint))
  unfolding receive_on
  receive none channel_id = (none, err null_argument)
  receive (some c) channel_id =
      let r = receive_on c channel_id (get_elem? c.channels channel_id) in (some r.0, r.1)
