-- ===== src/Xudp/Client/Outgoing.antt =====
-- The queues of acknowledgements and of outgoing messages (src/gekkota/gekkota_xudpclient.c), and
-- the functions that queue one message. The Boolean says whether the allocation succeeds.
use gekkota.Base.{
  ℕ, ◌+◌, List, [], ◌∷◌, ◌++◌, Option, none, some, Bool, true, false, Result, ok, err,
}
use gekkota.Base.{null_argument, out_of_memory, client_not_connected}
use gekkota.Base.{operation_not_supported, Run, done, ◌>>=◌, found, u16, u32, NetOrder}
use gekkota.Base.{not, get_elem?, set, ◌==◌, if◌then◌else◌}
use gekkota.Xudp.Types.{Client, Message, MessageType, Packet, Outgoing, Acknowledgement}
use gekkota.Xudp.Types.{message_size, is_set, acknowledge_flag, unsequenced_flag, Body}
use gekkota.Xudp.Types.{ClientState, in_state}

-- How an allocation that need not clear its memory ends: `dirty` memory has something else than
-- NULL in its list node, and then `gekkota_list_insert` refuses it, which nobody notices.
pub data Allocated : Type 0 where
  failed clean dirty : Allocated

add_acknowledgement : Allocated → Acknowledgement → List Acknowledgement → List Acknowledgement
add_acknowledgement dirty a queue = queue
add_acknowledgement _ a queue = queue ++ (a ∷ [])

unfoldable pub queue_acknowledgement : Allocated → Client → Message → ℕ → Client × Result (Unit {0})
unfolding add_acknowledgement
queue_acknowledgement failed c m sent_time = (c, err out_of_memory)
queue_acknowledgement alloc c m sent_time = (
  record c {
    outgoing_data_total = u32 (c.outgoing_data_total + 10);
    acknowledgements =
        add_acknowledgement alloc (record { sent_time = sent_time; message = m })
          c.acknowledgements;
  },
  ok tt,
)

-- The counter that a message takes its numbers from, and its reliable and unreliable number. A
-- channel that does not exist is a fault.
unfoldable pub numbered : Client → Message → Run (Client × ℕ × ℕ)
numbered c m =
    if m.channel_id == 255
    then (let n = u16 (c.outgoing_reliable_sequence_number + 1) in
        done (record c { outgoing_reliable_sequence_number = n }, n, 0))
    else if is_set m.flags acknowledge_flag
    then (found (get_elem? c.channels m.channel_id) >>= λ ch.
        let n = u16 (ch.outgoing_reliable_sequence_number + 1) in
        done (
          record c {
            channels =
                set c.channels m.channel_id (record ch { outgoing_reliable_sequence_number = n });
          },
          n,
          0,
        ))
    else if is_set m.flags unsequenced_flag
    then done
        (record c { outgoing_unsequenced_group = u16 (c.outgoing_unsequenced_group + 1) }, 0, 0)
    else (found (get_elem? c.channels m.channel_id) >>= λ ch.
        let n = u16 (ch.outgoing_unreliable_sequence_number + 1) in
        done (
          record c {
            channels =
                set c.channels m.channel_id (record ch { outgoing_unreliable_sequence_number = n });
          },
          ch.outgoing_reliable_sequence_number,
          n,
        ))

module _ (o : NetOrder) where
  unfoldable pub new_outgoing : Message → Option Packet → (offset len r n : ℕ) → Outgoing
  new_outgoing m p offset len r n = record {
    reliable_sequence_number = r;
    unreliable_sequence_number = n;
    sent_time = 0;
    round_trip_timeout = 0;
    round_trip_timeout_limit = 0;
    fragment_offset = offset;
    fragment_length = len;
    packet = p;
    message = record m { sequence_number = o.hton16 r };
  }

  unfoldable pub add_outgoing : Bool → Client → Outgoing → Client
  add_outgoing true c new = record c {
    outgoing_reliable_messages = c.outgoing_reliable_messages ++ (new ∷ []);
  }
  add_outgoing false c new = record c {
    outgoing_unreliable_messages = c.outgoing_unreliable_messages ++ (new ∷ []);
  }

  unfoldable pub queue_outgoing_message :
      Bool → Client → Message → Option Packet → (offset len : ℕ) → Run (Client × Result (Unit {0}))
  unfolding numbered new_outgoing add_outgoing
  queue_outgoing_message false c m p offset len = done (c, err out_of_memory)
  queue_outgoing_message true c m p offset len =
      numbered
        (record c {
          outgoing_data_total = u32 (c.outgoing_data_total + (message_size m.message_type + len));
        })
        m
      >>= λ t. done (
        add_outgoing (is_set m.flags acknowledge_flag) t.0 (new_outgoing m p offset len t.1 t.2),
        ok tt,
      )

  -- The header of a message of the client itself; its number is set when it is queued.
  abbrev pub client_message : MessageType → ℕ → Body → Message
  client_message type flags body = record {
    message_type = type;
    channel_id = 255;
    flags = flags;
    sequence_number = 0;
    body = body;
  }

  unfoldable pub set_throttle_configuration :
      Bool
      → Option Client
      → (interval acceleration deceleration : ℕ) → Run (Option Client × Result (Unit {0}))
  unfolding queue_outgoing_message
  set_throttle_configuration alloc none interval acceleration deceleration =
      done (none, err null_argument)
  set_throttle_configuration alloc (some c) interval acceleration deceleration =
      queue_outgoing_message alloc
        (record c {
          packet_throttle_interval = interval;
          packet_throttle_acceleration = acceleration;
          packet_throttle_deceleration = deceleration;
        })
        (client_message MessageType.configure_throttle
          (if c.is_multicast_group_member then 2 else 1)
          (Body.throttling (o.hton32 interval) (o.hton32 acceleration) (o.hton32 deceleration)))
        none 0 0
      >>= λ r. done (some r.0, r.1)

  unfoldable pub ping : Bool → Option Client → Run (Option Client × Result (Unit {0}))
  unfolding queue_outgoing_message
  ping alloc none = done (none, err null_argument)
  ping alloc (some c) =
      if not (in_state c.state ClientState.connected)
      then done (some c, err client_not_connected)
      else if c.is_multicast_group_member
      then done (some c, err operation_not_supported)
      else (queue_outgoing_message alloc c (client_message MessageType.ping 1 Body.no_body) none 0 0
          >>= λ r. done (some r.0, r.1))
