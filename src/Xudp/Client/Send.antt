-- ===== src/Xudp/Client/Send.antt =====
-- `gekkota_xudpclient_send` (src/gekkota/gekkota_xudpclient.c). The function `deflate` stands for
-- `_gekkota_xudpclient_deflate`, with the `errno` for NULL. The Boolean of a message's number says
-- whether its allocation succeeds. The packet's reference count, and what becomes of the flags of
-- the caller's packet, are not part of the result.
use gekkota.Base.{ℕ, zero, suc, ◌+◌, ◌-◌, ◌/◌, Option, none, some, Bool, Result, ok, err}
use gekkota.Base.{null_argument, buffer_overflow, argument_not_valid, client_not_connected}
use gekkota.Base.{operation_not_supported, Run, done, fault, stuck, ◌>>=◌, found}
use gekkota.Base.{u16, u32, sub16, NetOrder, length, get_elem?, leb, ltb, ◌^◌, ◌&&◌}
use gekkota.Base.{if◌then◌else◌}
use gekkota.Xudp.Types.{Client, Message, MessageType, Packet, Body, ClientState}
use gekkota.Xudp.Types.{in_state, is_set, bit_set, bit_unset, reliable_flag}
use gekkota.Xudp.Types.{unsequenced_flag, compressed_flag, acknowledge_flag}
use gekkota.Xudp.Client.Outgoing.{queue_outgoing_message}

-- `GEKKOTA_XUDP_CLIENT_MAX_PACKET_SIZE`.
abbrev pub max_packet_size : ℕ
max_packet_size = 2048000000

-- What all the fragments of a packet have in common, as the network has it.
pub record Series : Type 0 where
  pub channel_id : ℕ
  pub flags : ℕ
  pub start_sequence_number : ℕ
  pub fragment_count : ℕ

abbrev pub data_message : MessageType → (channel_id flags : ℕ) → Body → Message
data_message type channel_id flags body = record {
  message_type = type;
  channel_id = channel_id;
  flags = flags;
  sequence_number = 0;
  body = body;
}

-- The length of the next fragment.
unfoldable pub clipped : (total offset len : ℕ) → ℕ
clipped total offset len = if ltb (total - offset) len then total - offset else len

-- The bytes of data that fit a datagram: the header has 12, the fragment's message 28.
unfoldable pub fragment_capacity : Client → ℕ
fragment_capacity c = sub16 c.mtu 40

module _ (o : NetOrder) (allocs : ℕ → Bool) where
  unfoldable pub fragment_message : Series → Packet → (number offset len : ℕ) → Message
  fragment_message s p number offset len =
      data_message MessageType.data_fragment s.channel_id (bit_set s.flags acknowledge_flag) (
        Body.fragment (record {
          start_sequence_number = s.start_sequence_number;
          fragment_count = s.fragment_count;
          fragment_number = o.hton32 number;
          fragment_offset = o.ntoh32 offset;
          total_length = o.hton32 (length p.bytes);
          len = o.hton16 len;
        }))

  -- After a failure the code takes the list's tail off as if it were a message, once for each
  -- fragment before.
  unfoldable pub after_fragment :
      ℕ
      → Client
      → Result (Unit {0})
      → (Client → Run (Client × Result (Unit {0})))
      → Run (Client × Result (Unit {0}))
  after_fragment number c (ok t) k = k c
  after_fragment zero c (err e) k = done (c, err e)
  after_fragment (suc number) c (err e) k = fault

  -- The loop over the fragments, on fuel.
  unfoldable pub send_fragments :
      Series
      → Packet
      → (fuel : ℕ) → Client
      → (number offset len : ℕ) → Run (Client × Result (Unit {0}))
  unfolding after_fragment
  send_fragments s p zero c number offset len = stuck
  send_fragments s p (suc fuel) c number offset len =
      if leb (length p.bytes) offset
      then done (c, ok tt)
      else (let n = clipped (length p.bytes) offset len in
          queue_outgoing_message o (allocs number) c (fragment_message s p number offset n) (some p)
            offset n
          >>= λ r.
              after_fragment number r.0 r.1
                (λ c'. send_fragments s p fuel c' (suc number) (offset + n) n))

  -- A packet in one message, by its flags.
  unfoldable pub whole_message : Client → (channel_id flags sequence_number : ℕ) → Packet → Message
  whole_message c channel_id flags sequence_number p =
      if is_set p.flags reliable_flag
      then data_message MessageType.reliable_data channel_id (bit_set flags acknowledge_flag)
          (Body.reliable (o.hton16 (u16 (length p.bytes))))
      else if is_set p.flags unsequenced_flag
      then data_message MessageType.unsequenced_data channel_id (bit_set flags unsequenced_flag) (
          Body.unsequenced (o.hton16 (u16 (c.outgoing_unsequenced_group + 1)))
            (o.hton16 (u16 (length p.bytes))))
      else data_message MessageType.unreliable_data channel_id flags
          (Body.unreliable (o.hton16 (u16 (sequence_number + 1))) (o.hton16 (u16 (length p.bytes))))

  -- A packet in fragments of `len` bytes; the packet has become reliable. A length of 0 divides by
  -- zero.
  unfoldable pub fragmented :
      Client
      → (channel_id flags sequence_number len : ℕ) → Packet
      → Run (Client × Result (Unit {0}))
  unfolding send_fragments
  fragmented c channel_id flags sequence_number zero p = fault
  fragmented c channel_id flags sequence_number (suc n) p =
      send_fragments
        (record {
          channel_id = channel_id;
          flags = flags;
          start_sequence_number = o.hton16 (u16 (sequence_number + 1));
          fragment_count = o.hton32 (u32 ((length p.bytes + n) / suc n));
        })
        (record p { flags = bit_unset (bit_set p.flags reliable_flag) unsequenced_flag })
        (suc (length p.bytes)) c 0 0 (suc n)

  unfoldable pub send_packet :
      Client → (channel_id flags : ℕ) → Packet → Run (Client × Result (Unit {0}))
  unfolding fragmented fragment_capacity whole_message
  send_packet c channel_id flags p = found (get_elem? c.channels channel_id) >>= λ ch.
      if ltb (fragment_capacity c) (length p.bytes)
      then if c.is_multicast_group_member
        then done (c, ok tt)
        else fragmented c channel_id flags ch.outgoing_reliable_sequence_number
            (fragment_capacity c) p
      else queue_outgoing_message o (allocs 0) c
          (whole_message c channel_id flags ch.outgoing_unreliable_sequence_number p) (some p) 0
          (u16 (length p.bytes))

  -- The compressed packet takes the packet's place if it is shorter.
  shorter : Packet → Packet → ℕ × Packet
  shorter p deflated =
      if leb (length p.bytes) (length deflated.bytes)
      then (0, record p { flags = bit_unset p.flags compressed_flag })
      else (2 ^ compressed_flag, deflated)

  send_deflated : Client → ℕ → Packet → Result Packet → Run (Client × Result (Unit {0}))
  unfolding send_packet shorter
  send_deflated c channel_id p (err e) = done (c, err e)
  send_deflated c channel_id p (ok deflated) =
      send_packet c channel_id (shorter p deflated).0 (shorter p deflated).1

  unfoldable pub send_connected :
      (Packet → Result Packet) → Client → ℕ → Packet → Run (Client × Result (Unit {0}))
  unfolding send_deflated send_packet
  send_connected deflate c channel_id p =
      if c.is_multicast_group_member && is_set p.flags reliable_flag
      then done (c, err operation_not_supported)
      else if is_set p.flags compressed_flag
      then send_deflated c channel_id p (deflate p)
      else send_packet c channel_id 0 p

  unfoldable pub send_checked :
      (Packet → Result Packet) → Client → ℕ → Packet → Run (Client × Result (Unit {0}))
  unfolding send_connected
  send_checked deflate c channel_id p =
      if ltb max_packet_size (length p.bytes)
      then done (c, err buffer_overflow)
      else if leb (length c.channels) channel_id
      then done (c, err argument_not_valid)
      else if in_state c.state ClientState.connected
      then send_connected deflate c channel_id p
      else done (c, err client_not_connected)

  unfoldable pub send :
      (Packet → Result Packet)
      → Option Client
      → ℕ
      → Option Packet
      → Run (Option Client × Result (Unit {0}))
  unfolding send_checked
  send deflate none channel_id p = done (none, err null_argument)
  send deflate (some c) channel_id none = done (some c, err null_argument)
  send deflate (some c) channel_id (some p) =
      send_checked deflate c channel_id p >>= λ r. done (some r.0, r.1)
