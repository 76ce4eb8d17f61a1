-- ===== src/Xudp/Samples.antt =====
-- A client, a message and a packet that the tests use.
use gekkota.Base.{[], ◌∷◌, none, some, false, replicate}
use gekkota.Xudp.Types.{Client, Channel, MessageType, Body, Packet, EndPoint, Outgoing, ClientState}

abbrev pub channel : Channel
channel = record {
  outgoing_reliable_sequence_number = 7;
  outgoing_unreliable_sequence_number = 0;
  incoming_reliable_sequence_number = 4;
  incoming_unreliable_sequence_number = 0;
  incoming_reliable_messages = [];
  incoming_unreliable_messages = [];
}

-- A connected client with one channel and an mtu of 43 bytes.
abbrev pub client : Client
client = record {
  session_id = 1;
  local_client_id = 0;
  remote_client_id = 0;
  remote_endpoint = none;
  is_multicast_group_member = false;
  multicast_interface_index = 0;
  state = ClientState.connected;
  channels = channel ∷ [];
  compression_level = 0;
  incoming_bandwidth = 0;
  outgoing_bandwidth = 0;
  incoming_bandwidth_throttle_epoch = 0;
  outgoing_bandwidth_throttle_epoch = 0;
  incoming_data_total = 0;
  outgoing_data_total = 0;
  last_receive_time = 0;
  next_timeout = 0;
  earliest_timeout = 0;
  packet_throttle = 31;
  packet_throttle_limit = 32;
  packet_throttle_counter = 0;
  packet_throttle_epoch = 0;
  packet_throttle_acceleration = 2;
  packet_throttle_deceleration = 2;
  packet_throttle_interval = 5000;
  round_trip_time = 500;
  round_trip_time_variance = 0;
  last_round_trip_time = 500;
  last_round_trip_time_variance = 0;
  lowest_round_trip_time = 500;
  highest_round_trip_time_variance = 0;
  mtu = 43;
  window_size = 32768;
  reliable_data_in_transit = 3;
  outgoing_reliable_sequence_number = 0;
  incoming_unsequenced_group = 0;
  outgoing_unsequenced_group = 0;
  unsequenced_window = replicate 4 0;
  acknowledgements = [];
  sent_reliable_messages = [];
  sent_unreliable_messages = [];
  outgoing_reliable_messages = [];
  outgoing_unreliable_messages = [];
}

abbrev pub packet : Packet
packet = record { bytes = 1 ∷ 2 ∷ 3 ∷ 4 ∷ 5 ∷ []; flags = 0 }

abbrev pub endpoint : EndPoint
endpoint = record { address = 1; port = 2 }

abbrev pub in_flight : Outgoing
in_flight = record {
  reliable_sequence_number = 5;
  unreliable_sequence_number = 0;
  sent_time = 1;
  round_trip_timeout = 500;
  round_trip_timeout_limit = 16000;
  fragment_offset = 0;
  fragment_length = 3;
  packet = some packet;
  message = record {
    message_type = MessageType.reliable_data;
    channel_id = 0;
    flags = 1;
    sequence_number = 5;
    body = Body.reliable 3;
  };
}
