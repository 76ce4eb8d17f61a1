-- ===== src/Xudp/Host/Tests.antt =====
-- The theorems on the host's functions at concrete inputs.
use gekkota.Base.{◌≤◌, ◌≡◌, refl, arith, [], ◌∷◌, ◌++◌, true, false, ok, done, Ends}
use gekkota.Base.{little_endian, replicate}
use gekkota.Xudp.Types.{Client, ClientState, Message, MessageType, Body, Incoming}
use gekkota.Xudp.Samples.{client, endpoint, in_flight}
use gekkota.Xudp.Clock.{time_get_lag}
use gekkota.Xudp.Acknowledge.{timeout_of, in_transit}
use gekkota.Xudp.Host.Datagram.{empty_datagram, room, buffer_count}
use gekkota.Xudp.Host.Sending.{send_reliable}
use gekkota.Xudp.Host.Bounds.{Fits}
use gekkota.Xudp.Host.Conserves.{numbers, send_reliable-conserves}
use gekkota.Xudp.Host.Notify.{Service}
use gekkota.Xudp.Host.Timeouts.{
  check_for_timeouts, no_timeout, check_messages, is_due, earliest, is_lost, requeue, doubled,
}
use gekkota.Xudp.Host.Requeue.{due, waiting, doubled_onto, check_for_timeouts-requeues}
use gekkota.Xudp.Host.Connect.{Settings}
use gekkota.Xudp.Host.Accept.{processed, on_validate_connect}
use gekkota.Xudp.Host.Handshake.{Carried, Joined, answer, on_validate_connect-handshake}
use gekkota.Xudp.Host.Flush.{
  Call, client_turn, timeout_turn, reliable_turn, unreliable_turn, after_unreliable, close_idle,
  closed_idle, gives_back,
}
use gekkota.Base.{fault, stuck, some}
use gekkota.Xudp.Host.Sending.{
  fill_unreliable, is_full_for_unreliable, is_dropped, throttled, move_unreliable, put_unreliable,
  is_full_for, exceeds_room_whole, put_packet,
}
use gekkota.Xudp.Client.Outgoing.{queue_outgoing_message, numbered, add_outgoing}
use gekkota.Xudp.Client.Close.{close_gracefully, clear_message_queues, queue_close}
use gekkota.Xudp.Host.Turns.{IsSound, client_turn-IsSound}
use gekkota.Xudp.Host.Bandwidth.{Host}
use gekkota.Xudp.Host.Data.{Receipt, on_reliable_data, on_unreliable_data}
use gekkota.Xudp.Host.Unanswered.{IsUnanswered, on_reliable_data-IsUnanswered}
use gekkota.Xudp.Host.Fragments.{Part, place}
use gekkota.Xudp.Host.Reassembly.{HasPart, IsPlaced, place_twice}
use gekkota.Xudp.Host.Accept.{discarded}
use gekkota.Xudp.Host.Dispatch.{
  Table, dispatch, dispatch_from, by_visit, visit_at, visit_client, visit_in, deliver,
  delivered_event,
}
use gekkota.Base.{◌++◌, ◌⊎◌}
use gekkota.Xudp.Host.Broadcast.{broadcast, sent_to, AllSend, Stops, broadcast-divides}
use gekkota.Xudp.Host.Waiting.{dispatch-waiting}
use gekkota.Base.{◌≢◌}

abbrev service : Service
service = record { place = 0; host_mtu = 1400; wants_event = true; alloc_event = true }

abbrev call : Call
call = record { now = 100000; protocol_id = 7; check = true; alloc_ping = true; keeps = λ p. false }

-- A client with a message to send and one in flight.
abbrev sending : Client
sending = record client {
  mtu = 576;
  sent_reliable_messages = record in_flight { round_trip_timeout_limit = 16000 } ∷ [];
  outgoing_reliable_messages = record in_flight { reliable_sequence_number = 6 } ∷ [];
}

client_turn-IsSound_example :
    IsSound 576
      (client_turn little_endian call (λ t. true) service false (λ c d. stuck) false sending)
client_turn-IsSound_example =
    client_turn-IsSound little_endian call (λ t. true) service false (λ c d. stuck) false sending
      (omega arith) (omega arith) refl

-- A client that waits to disconnect, with one packet left that the program does not keep.
abbrev leaving : Client
leaving = record client {
  mtu = 576;
  state = ClientState.delaying_disconnect;
  outgoing_unreliable_messages =
      record in_flight { packet = some (record { bytes = 1 ∷ 2 ∷ []; flags = 0 }) } ∷ [];
}

-- The packet is given back before the datagram with its bytes is sent.
given_back :
    client_turn little_endian call (λ t. true) service false (λ c d. stuck) false leaving ≡ fault
unfolding client_turn timeout_turn reliable_turn unreliable_turn fill_unreliable after_unreliable
    close_idle close_gracefully clear_message_queues queue_close queue_outgoing_message numbered
    add_outgoing closed_idle gives_back is_full_for_unreliable is_full_for is_dropped throttled
    move_unreliable put_unreliable exceeds_room_whole put_packet room buffer_count
given_back = refl

empty_datagram-Fits : Fits 576 (empty_datagram 0)
unfolding Fits
empty_datagram-Fits = (omega arith, omega arith, omega arith)

send_reliable-conserves_example :
    Fits 576 (send_reliable 9 sending (empty_datagram 0)).datagram
    × ((send_reliable 9 sending (empty_datagram 0)).client.window_size ≡ 32768)
    × (((send_reliable 9 sending (empty_datagram 0)).client.reliable_data_in_transit
          ≡ sending.reliable_data_in_transit)
        ⊎ ((send_reliable 9 sending (empty_datagram 0)).client.reliable_data_in_transit ≤ 32768))
    × (numbers (send_reliable 9 sending (empty_datagram 0)).client.sent_reliable_messages
          ++ numbers (send_reliable 9 sending (empty_datagram 0)).client.outgoing_reliable_messages
        ≡ 5 ∷ 6 ∷ [])
send_reliable-conserves_example =
    send_reliable-conserves 9 576 sending (empty_datagram 0) (omega arith) refl empty_datagram-Fits

-- One message is due after 600 ms, and goes back with its timeout doubled.
abbrev again : Client
again = record sending {
  earliest_timeout = 1;
  next_timeout = 0;
  reliable_data_in_transit = 0;
  sent_reliable_messages = [];
  outgoing_reliable_messages =
      doubled (record in_flight { round_trip_timeout_limit = 16000 })
      ∷ record in_flight { reliable_sequence_number = 6 }
      ∷ [];
}

requeued : check_for_timeouts service false 601 sending ≡ no_timeout again
unfolding check_for_timeouts check_messages is_due earliest is_lost requeue time_get_lag timeout_of
    in_transit
requeued = refl

check_for_timeouts-requeues_example :
    ([] ≡ waiting 601 sending.sent_reliable_messages)
    × (again.outgoing_reliable_messages
        ≡ doubled_onto (due 601 sending.sent_reliable_messages) sending.outgoing_reliable_messages)
check_for_timeouts-requeues_example =
    check_for_timeouts-requeues service false 601 sending again requeued

abbrev settings : Settings
settings = record { host_mtu = 1400; incoming_bandwidth = 0; outgoing_bandwidth = 0 }

abbrev connecting : Client
connecting = record client { state = ClientState.connecting; mtu = 1400; compression_level = 13 }

carried : Carried connecting
carried = record {
  id_small = omega arith;
  mtu_least = omega arith;
  mtu_most = omega arith;
  interval_small = omega arith;
  acceleration_small = omega arith;
  deceleration_small = omega arith;
}

on_validate_connect-handshake_example :
    ((on_validate_connect little_endian service false connecting
        (answer little_endian settings settings endpoint connecting client carried)).code
      ≡ processed)
    × Joined little_endian settings settings endpoint connecting client carried
        (on_validate_connect little_endian service false connecting
          (answer little_endian settings settings endpoint connecting client carried)).client
on_validate_connect-handshake_example =
    on_validate_connect-handshake little_endian settings settings endpoint connecting client service
      false carried (omega arith) refl refl refl

abbrev host : Host
host = record {
  incoming_bandwidth = 1000;
  outgoing_bandwidth = 2000;
  bandwidth_throttle_epoch = 0;
  reconfigure_bandwidth = true;
  clients = record client { incoming_bandwidth = 500; outgoing_data_total = 9000 } ∷ [];
}

abbrev receipt : Receipt
receipt = record {
  memory = record {
    alloc = λ n initialize. ok (record { address = 8; bytes = replicate n 7 });
    realloc = λ b n initialize. ok (record { address = 8; bytes = replicate n 7 });
  };
  alloc_packet = true;
  alloc_message = true;
  address = 16;
  sender = endpoint;
}

abbrev data_message : Message
data_message = record {
  message_type = MessageType.reliable_data;
  channel_id = 0;
  flags = 1;
  sequence_number = 5;
  body = Body.reliable 512;
}

on_reliable_data-IsUnanswered_example :
    Ends ⊥
      (IsUnanswered client)
      (on_reliable_data little_endian receipt client data_message 512 (3 ∷ 4 ∷ []))
    × Ends ⊥
        (IsUnanswered client)
        (on_unreliable_data little_endian receipt client data_message 512 (3 ∷ 4 ∷ []))
on_reliable_data-IsUnanswered_example =
    on_reliable_data-IsUnanswered little_endian receipt client data_message 512 (3 ∷ 4 ∷ [])

abbrev part : Part
part = record { start = 5; number = 1; count = 2; offset = 2; total = 4; bytes = 3 ∷ 4 ∷ [] }

abbrev incomplete : Incoming
incomplete = record {
  reliable_sequence_number = 5;
  unreliable_sequence_number = 0;
  fragment_count = 2;
  fragments_remaining = 2;
  fragments = 0 ∷ [];
  packet = record { bytes = 0 ∷ 0 ∷ 0 ∷ 0 ∷ []; flags = 1 };
  message = data_message;
  remote_endpoint = endpoint;
}

place_twice_example :
    (m' : Incoming) × (place part incomplete ≡ done m')
    × HasPart 1 m'
    × IsPlaced part incomplete m'
    × (place part m' ≡ done m')
place_twice_example =
    place_twice part part incomplete (omega arith) (omega arith) (omega arith) refl

abbrev table : Table
table = record { clients = client ∷ sending ∷ []; last_serviced = 1; reconfigure = false }

finds_nothing : (dispatch (λ p. ok p) true 1400 table).2 ≡ discarded
unfolding dispatch dispatch_from by_visit visit_at visit_client visit_in deliver delivered_event
finds_nothing = refl

dispatch-waiting_example :
    ((dispatch (λ p. ok p) true 1400 table).0 ≡ table)
    × (client.state ≢ ClientState.connection_pending)
    × (client.state ≢ ClientState.connection_succeeded)
    × (client.state ≢ ClientState.zombie)
dispatch-waiting_example =
    dispatch-waiting (λ p. ok p) true 1400 table 0 client (omega arith) (omega arith) refl
      finds_nothing

broadcast-divides_example :
    (AllSend (λ c. (c, false)) (client ∷ sending ∷ [])
      × (broadcast (λ c. (c, false)) (client ∷ sending ∷ [])
          ≡ (sent_to (λ c. (c, false)) (client ∷ sending ∷ []), true)))
    ⊎ Stops
        (λ c. (c, false))
        (client ∷ sending ∷ [])
        (broadcast (λ c. (c, false)) (client ∷ sending ∷ []))
broadcast-divides_example = broadcast-divides (λ c. (c, false)) (client ∷ sending ∷ [])
