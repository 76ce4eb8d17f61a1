-- ===== src/Xudp/Host/Sending.antt =====
-- `_gekkota_xudp_send_acknowledgements`, `_gekkota_xudp_send_reliable` and
-- `_gekkota_xudp_send_unreliable` (src/gekkota/gekkota_xudp.c). Each goes through a queue of the
-- client, moves what fits to the datagram and leaves the rest.
use gekkota.Base.{
  ℕ, ◌+◌, ◌*◌, ◌%◌, List, [], ◌∷◌, ◌++◌, Option, none, some, Bool, true, false, NetOrder,
}
use gekkota.Base.{
  u16, u32, length, take, drop, ltb, leb, ◌==◌, ◌||◌, if◌then◌else◌, is_empty, is_some,
}
use gekkota.Xudp.Types.{
  Client, Acknowledgement, Outgoing, Message, MessageType, message_size, Body, Packet,
}
use gekkota.Xudp.Types.{ClientState, bit_set}
use gekkota.Xudp.Host.Datagram.{
  Datagram, room, buffer_count, add_message, add_data, max_messages, max_buffers,
}

-- The queue that is left, the client and the datagram, and whether there is more to send.
pub record Filled : Type 0 where
  pub client : Client
  pub datagram : Datagram
  pub more : Bool

abbrev pub is_disconnect : MessageType → Bool
is_disconnect MessageType.disconnect = true
is_disconnect _ = false

-- The ACKNOWLEDGE message for a message received; its flags and sequence number are not set.
abbrev pub acknowledge_message : NetOrder → Acknowledgement → Message
acknowledge_message o a = record {
  message_type = MessageType.acknowledge;
  channel_id = a.message.channel_id;
  flags = 0;
  sequence_number = 0;
  body = Body.acknowledged (o.hton16 a.message.sequence_number) (o.hton16 (u16 a.sent_time));
}

unfoldable pub is_full_for_acknowledgement : Client → Datagram → Bool
is_full_for_acknowledgement c d =
    leb max_messages (length d.messages)
    || leb max_buffers (buffer_count d)
    || ltb (room c.mtu d) 10

unfoldable pub acknowledge_one : Acknowledgement → Client → Client
acknowledge_one a c =
    if is_disconnect a.message.message_type then record c { state = ClientState.zombie } else c

module _ (o : NetOrder) where
  unfoldable pub fill_acknowledgements : List Acknowledgement → Client → Datagram → Filled
  unfolding acknowledge_one
  fill_acknowledgements [] c d = record {
    client = record c { acknowledgements = [] };
    datagram = d;
    more = false;
  }
  fill_acknowledgements (a ∷ queue) c d =
      let rest =
        fill_acknowledgements queue (acknowledge_one a c)
          (add_message 10 (acknowledge_message o a) d) in
      if is_full_for_acknowledgement c d
      then record { client = record c { acknowledgements = a ∷ queue }; datagram = d; more = true }
      else rest

  unfoldable pub send_acknowledgements : Client → Datagram → Filled
  unfolding fill_acknowledgements
  send_acknowledgements c d = fill_acknowledgements c.acknowledgements c d

-- The messages' and buffers' arrays and the room for the message.
unfoldable pub is_full_for : (size : ℕ) → Client → Datagram → Bool
is_full_for size c d =
    leb max_messages (length d.messages)
    || leb max_buffers (buffer_count d + 1)
    || ltb (room c.mtu d) size

-- A first timeout, and the limit that it may grow to.
unfoldable pub with_timeout : Client → Outgoing → Outgoing
with_timeout c m =
    if m.round_trip_timeout == 0
    then (let timeout = u32 (c.round_trip_time + 4 * c.round_trip_time_variance) in
        record m { round_trip_timeout = timeout; round_trip_timeout_limit = u32 (32 * timeout) })
    else m

unfoldable pub started : (now : ℕ) → Client → Outgoing → Client
started now c m =
    if is_empty c.sent_reliable_messages
    then record c { next_timeout = u32 (now + m.round_trip_timeout) }
    else c

-- The bytes of its packet that a message carries.
abbrev pub payload : Outgoing → Packet → List ℕ
payload m p = take m.fragment_length (drop m.fragment_offset p.bytes)

unfoldable pub add_payload : Outgoing → Option Packet → Datagram → Datagram
add_payload m none d = d
add_payload m (some p) d = add_data m.fragment_length (payload m p) d

unfoldable pub in_transit_with : Outgoing → Option Packet → ℕ → ℕ
in_transit_with m none total = total
in_transit_with m (some p) total = u32 (total + m.fragment_length)

-- The message goes to the sent messages and into the datagram.
unfoldable pub move_reliable : (now : ℕ) → Outgoing → Client → Client
unfolding with_timeout started in_transit_with
move_reliable now m c =
    let m' = with_timeout c m in
    let c' = started now c m' in
    record c' {
      sent_reliable_messages = c'.sent_reliable_messages ++ (record m' { sent_time = now } ∷ []);
      reliable_data_in_transit = in_transit_with m m.packet c'.reliable_data_in_transit;
    }

unfoldable pub put_reliable : Outgoing → Datagram → Datagram
unfolding add_payload
put_reliable m d = add_payload m m.packet (
    add_message (message_size m.message.message_type) m.message
      (record d { header_flags = bit_set d.header_flags 0 }))

-- Whether the window or the datagram has no room for the message's data.
unfoldable pub exceeds_window : Outgoing → Option Packet → Client → Bool
exceeds_window m none c = false
exceeds_window m (some p) c =
    ltb c.window_size (u32 (c.reliable_data_in_transit + m.fragment_length))

unfoldable pub exceeds_room : Outgoing → Option Packet → Client → Datagram → Bool
exceeds_room m none c d = false
exceeds_room m (some p) c d =
    ltb (room c.mtu d) (message_size m.message.message_type + m.fragment_length)

-- Why the loop stops at a message, if it does: `more` is the result `done`.
pub data Verdict : Type 0 where
  goes : Verdict
  stops : (more : Bool) → Verdict

unfoldable pub reliable_verdict : Outgoing → Client → Datagram → Verdict
unfolding exceeds_window exceeds_room is_full_for
reliable_verdict m c d =
    if is_full_for (message_size m.message.message_type) c d
    then stops true
    else if exceeds_window m m.packet c
    then stops false
    else if exceeds_room m m.packet c d
    then stops true
    else goes

unfoldable pub stop_reliable : Verdict → Filled → List Outgoing → Client → Datagram → Filled
stop_reliable goes rest queue c d = rest
stop_reliable (stops more) rest queue c d = record {
  client = record c { outgoing_reliable_messages = queue };
  datagram = d;
  more = more;
}

module _ (now : ℕ) where
  unfoldable pub fill_reliable : List Outgoing → Client → Datagram → Filled
  unfolding move_reliable put_reliable stop_reliable
  fill_reliable [] c d = record {
    client = record c { outgoing_reliable_messages = [] };
    datagram = d;
    more = false;
  }
  fill_reliable (m ∷ queue) c d =
      let rest = fill_reliable queue (move_reliable now m c) (put_reliable m d) in
      stop_reliable (reliable_verdict m c d) rest (m ∷ queue) c d

  unfoldable pub send_reliable : Client → Datagram → Filled
  unfolding fill_reliable
  send_reliable c d = fill_reliable c.outgoing_reliable_messages c d

-- Whether the datagram has no room for an unreliable message and its packet.
unfoldable pub exceeds_room_whole : Outgoing → Option Packet → Client → Datagram → Bool
exceeds_room_whole m none c d = false
exceeds_room_whole m (some p) c d =
    ltb (room c.mtu d) (message_size m.message.message_type + length p.bytes)

unfoldable pub is_full_for_unreliable : Outgoing → Client → Datagram → Bool
unfolding exceeds_room_whole is_full_for
is_full_for_unreliable m c d =
    is_full_for (message_size m.message.message_type) c d || exceeds_room_whole m m.packet c d

-- The throttle counts messages with packets.
unfoldable pub throttled : Option Packet → Client → Client
throttled none c = c
throttled (some p) c = record c {
  packet_throttle_counter = u32 (c.packet_throttle_counter + 7) % 32;
}

unfoldable pub is_dropped : Option Packet → Client → Bool
is_dropped none c = false
is_dropped (some p) c = ltb c.packet_throttle c.packet_throttle_counter

unfoldable pub put_packet : Option Packet → Datagram → Datagram
put_packet none d = d
put_packet (some p) d = add_data (length p.bytes) p.bytes d

unfoldable pub put_unreliable : Outgoing → Datagram → Datagram
unfolding put_packet
put_unreliable m d =
    put_packet m.packet (add_message (message_size m.message.message_type) m.message d)

-- A message with a packet is kept until the datagram is sent.
unfoldable pub move_unreliable : Outgoing → Client → Client
move_unreliable m c =
    if is_some m.packet
    then record c { sent_unreliable_messages = c.sent_unreliable_messages ++ (m ∷ []) }
    else c

unfoldable pub fill_unreliable : List Outgoing → Client → Datagram → Filled
unfolding throttled move_unreliable put_unreliable
fill_unreliable [] c d = record {
  client = record c { outgoing_unreliable_messages = [] };
  datagram = d;
  more = false;
}
fill_unreliable (m ∷ queue) c d =
    let c' = throttled m.packet c in
    let dropped = is_dropped m.packet c' in
    let rest =
      fill_unreliable queue (if dropped then c' else move_unreliable m c')
        (if dropped then d else put_unreliable m d) in
    if is_full_for_unreliable m c d
    then record {
      client = record c { outgoing_unreliable_messages = m ∷ queue };
      datagram = d;
      more = true;
    }
    else rest
