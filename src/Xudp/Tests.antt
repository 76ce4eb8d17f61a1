-- ===== src/Xudp/Tests.antt =====
-- Runs of the protocol's functions, and each theorem at concrete inputs.
use gekkota.Base.{
  ℕ, ◌/◌, ◌%◌, ◌<◌, ◌≤◌, ◌≡◌, refl, ◌⊎◌, ◌↔◌, arith, List, [], ◌∷◌, ◌++◌, none, some,
}
use gekkota.Base.{true, false, ok, done, little_endian, replicate}
use gekkota.Xudp.Types.{Client, Channel, MessageType, Body, Incoming, Outgoing}
use gekkota.Xudp.Clock.{time_compare, equal, greater}
use gekkota.Xudp.Client.Send.{send, fragment_capacity}
use gekkota.Xudp.Client.Fragments.{IsSeries, joined, made_reliable, send-IsSeries}
use gekkota.Xudp.Client.Incoming.{queue_on_channel, adjusted, is_late, inserted, scan, reduced}
use gekkota.Xudp.Client.Order.{IsOrdered, HasGained, IsReliable, IsAbove}
use gekkota.Xudp.Client.Arrivals.{queue_on_channel_twice}
use gekkota.Xudp.Client.Receive.{take_message, last_number}
use gekkota.Xudp.Client.Delivery.{take_message-queue_on_channel}
use gekkota.Base.{get_elem?}
use gekkota.Xudp.Client.Incoming.{queue_incoming_message, new_incoming}
use gekkota.Xudp.Client.Queueing.{queue_incoming_message-HasGained}
use gekkota.Xudp.Client.Close.{nought, finished, close_now}
use gekkota.Xudp.Client.Closed.{IsClosed, close_now-IsClosed}
use gekkota.Xudp.Timing.{throttle, smoothed, throttle-within, smoothed-between}
use gekkota.Xudp.Window.{on_configure_bandwidth, smaller, on_configure_bandwidth-extreme}
use gekkota.Xudp.Unsequenced.{accept, mark, accept-collides}
use gekkota.Xudp.Acknowledge.{dispose_acknowledged_message, HasNone, is_acknowledged, in_transit}
use gekkota.Xudp.Acknowledge.{dispose_acknowledged_message-divides}
use gekkota.Xudp.Samples.{channel, client, packet, endpoint, in_flight}

abbrev waiting : Client
waiting = record client { sent_reliable_messages = in_flight ∷ [] }

abbrev incoming : ℕ → Incoming
incoming n = record {
  reliable_sequence_number = n;
  unreliable_sequence_number = 0;
  fragment_count = 0;
  fragments_remaining = 0;
  fragments = [];
  packet = packet;
  message = record {
    message_type = MessageType.reliable_data;
    channel_id = 0;
    flags = 1;
    sequence_number = n;
    body = Body.reliable 5;
  };
  remote_endpoint = endpoint;
}

abbrev channel_with_6 : Channel
channel_with_6 = record channel { incoming_reliable_messages = incoming 6 ∷ [] }

abbrev channel_with_5_6 : Channel
channel_with_5_6 = record channel { incoming_reliable_messages = incoming 5 ∷ incoming 6 ∷ [] }

takes_5 : queue_on_channel little_endian true channel_with_6 (incoming 5) ≡ some channel_with_5_6
unfolding queue_on_channel adjusted is_late inserted scan reduced
takes_5 = refl

channel_with_6-IsOrdered : IsOrdered channel_with_6
unfolding IsOrdered IsAbove
channel_with_6-IsOrdered = (omega arith, tt)

-- Two times in order are equal, and two times a day apart are the wrong way round.
times_compared : (time_compare 5 6 ≡ equal) × (time_compare 5 100000000 ≡ greater)
unfolding time_compare
times_compared = (refl, refl)

room : 0 < fragment_capacity client
unfolding fragment_capacity
room = omega arith

long : fragment_capacity client < 5
unfolding fragment_capacity
long = omega arith

send-IsSeries_example :
    (c' : Client) × (ms : List Outgoing) × (send little_endian
        (λ _. true)
        (λ p. ok p)
        (some client)
        0
        (some packet)
      ≡ done (some c', ok tt))
    × (c'.outgoing_reliable_messages ≡ [] ++ ms)
    × IsSeries (made_reliable packet) (fragment_capacity client) 0 7 ms
    × (joined ms ≡ packet.bytes)
send-IsSeries_example =
    send-IsSeries little_endian (λ _. true) (λ p. ok p) client 0 packet channel (λ _. refl) refl
      refl refl room long (omega arith) (omega arith) refl

reliable : IsReliable MessageType.reliable_data
unfolding IsReliable
reliable = tt

accepts : accept 0 (replicate 4 0) 1 ≡ some (0, mark (replicate 4 0) 1)
unfolding accept
accepts = refl

abbrev client_with_6 : Client
client_with_6 = record client { channels = channel_with_6 ∷ [] }

abbrev client_with_5_6 : Client
client_with_5_6 = record client { channels = channel_with_5_6 ∷ [] }

queues_5 :
    queue_incoming_message little_endian true client_with_6 (incoming 5).message packet 0 endpoint
    ≡ done (client_with_5_6, true)
unfolding queue_incoming_message queue_on_channel adjusted is_late inserted scan reduced
queues_5 = refl

queue_incoming_message-HasGained_example :
    (ch' : Channel) × (get_elem? client_with_5_6.channels 0 ≡ some ch')
    × HasGained channel_with_6
        (new_incoming little_endian (incoming 5).message packet 0 endpoint)
        ch'
queue_incoming_message-HasGained_example =
    queue_incoming_message-HasGained little_endian true client_with_6 client_with_5_6
      (incoming 5).message packet 0 endpoint channel_with_6 reliable (omega arith) refl
      (omega arith) channel_with_6-IsOrdered queues_5

queue_on_channel_twice_example :
    ¬ (queue_on_channel little_endian true channel_with_5_6 (incoming 5) ≡ some channel_with_5_6)
queue_on_channel_twice_example =
    queue_on_channel_twice little_endian true true channel_with_6 channel_with_5_6 channel_with_5_6
      (incoming 5) (incoming 5) reliable (omega arith) refl (omega arith) channel_with_6-IsOrdered
      takes_5 reliable refl refl

take_message-queue_on_channel_example :
    (rest : List Incoming) × (channel_with_5_6.incoming_reliable_messages ≡ incoming 5 ∷ rest)
    × (take_message false channel_with_5_6
        ≡ some (
          incoming 5,
          record channel_with_5_6 {
            incoming_reliable_sequence_number = last_number (incoming 5);
            incoming_reliable_messages = rest;
          },
        ))
take_message-queue_on_channel_example =
    take_message-queue_on_channel little_endian true channel_with_6 channel_with_5_6 (incoming 5)
      reliable (omega arith) refl (omega arith) channel_with_6-IsOrdered takes_5 refl refl refl

throttle-within_example :
    ((throttle client 300).0.packet_throttle_limit ≡ 32)
    × ((throttle client 300).0.packet_throttle ≤ 32)
throttle-within_example = throttle-within client 300 (omega arith)

smoothed-between_example :
    ((500 ≤ 300)
      × (500 ≤ (smoothed client 300).round_trip_time)
      × ((smoothed client 300).round_trip_time ≤ 300))
    ⊎ ((300 ≤ 500)
        × (300 ≤ (smoothed client 300).round_trip_time)
        × ((smoothed client 300).round_trip_time ≤ 500))
smoothed-between_example = smoothed-between client 300 (omega arith) (omega arith)

on_configure_bandwidth-extreme_example :
    (((on_configure_bandwidth little_endian 65536 256 0 client).window_size ≡ 4096)
      ⊎ ((on_configure_bandwidth little_endian 65536 256 0 client).window_size ≡ 32768))
    × ((smaller (little_endian.ntoh32 256) 65536 / 64 % 1024 ≡ 0)
        ↔ ((on_configure_bandwidth little_endian 65536 256 0 client).window_size ≡ 4096))
on_configure_bandwidth-extreme_example =
    on_configure_bandwidth-extreme little_endian 65536 256 0 client refl

accept-collides_example : accept 0 (mark (replicate 4 0) 1) 5 ≡ none
accept-collides_example =
    accept-collides 0 0 (replicate 4 0) (mark (replicate 4 0) 1) 1 5 refl accepts refl refl

dispose_acknowledged_message-divides_example :
    (HasNone 5 0 (in_flight ∷ [])
      × (dispose_acknowledged_message waiting 5 0 ≡ (waiting, MessageType.undefined)))
    ⊎ ((m : Outgoing) × (front : List Outgoing) × (back : List Outgoing) × ((in_flight ∷ [])
          ≡ front ++ (m ∷ back))
        × ((dispose_acknowledged_message waiting 5 0).0.sent_reliable_messages ≡ front ++ back)
        × HasNone 5 0 front
        × (is_acknowledged 5 0 m ≡ true)
        × ((dispose_acknowledged_message waiting 5 0).1 ≡ m.message.message_type)
        × ((dispose_acknowledged_message waiting 5 0).0.reliable_data_in_transit ≡ in_transit 3 m))
dispose_acknowledged_message-divides_example = dispose_acknowledged_message-divides waiting 5 0

close_now-IsClosed_example :
    (c' : Client) × (close_now little_endian true 0 1400 (λ c. (c, nought)) client
      ≡ done (c', finished))
    × IsClosed c'
close_now-IsClosed_example =
    close_now-IsClosed little_endian 0 1400 (λ c. (c, nought)) client (λ _. refl) refl
