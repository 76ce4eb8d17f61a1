-- ===== src/Xudp/Types.antt =====
-- The data of the protocol (src/gekkota/gekkota_xudp_internal.h, gekkota_xudpclient_internal.h and
-- gekkota_packet_internal.h). Numbers in a message are as the network has them, but for the
-- sequence number of a received header. Sizes are those of a 64-bit machine with natural alignment.
use gekkota.Base.{
  arith, ◌+◌, ◌-◌, true, false, ◌≡◌, refl, ℕ, ◌/◌, ◌%◌, ◌^◌, List, Option, Bool, ◌==◌,
  if◌then◌else◌,
}

pub data MessageType : Type 0 where
  undefined acknowledge connect validate_connect disconnect : MessageType
  join_multicast_group leave_multicast_group ping : MessageType
  reliable_data unreliable_data unsequenced_data data_fragment : MessageType
  configure_bandwidth configure_throttle : MessageType

abbrev pub is_unreliable_data : MessageType → Bool
is_unreliable_data MessageType.unreliable_data = true
is_unreliable_data _ = false

abbrev pub is_unsequenced_data : MessageType → Bool
is_unsequenced_data MessageType.unsequenced_data = true
is_unsequenced_data _ = false

-- `messageSizes`.
abbrev pub message_size : MessageType → ℕ
message_size MessageType.undefined = 0
message_size MessageType.acknowledge = 10
message_size MessageType.connect = 44
message_size MessageType.validate_connect = 40
message_size MessageType.disconnect = 6
message_size MessageType.join_multicast_group = 6
message_size MessageType.leave_multicast_group = 6
message_size MessageType.ping = 6
message_size MessageType.reliable_data = 8
message_size MessageType.unreliable_data = 10
message_size MessageType.unsequenced_data = 10
message_size MessageType.data_fragment = 28
message_size MessageType.configure_bandwidth = 16
message_size MessageType.configure_throttle = 20

-- The flags of a message and of a packet, as bit numbers.
abbrev pub acknowledge_flag : ℕ
acknowledge_flag = 0

abbrev pub reliable_flag : ℕ
reliable_flag = 0

abbrev pub unsequenced_flag : ℕ
unsequenced_flag = 1

abbrev pub compressed_flag : ℕ
compressed_flag = 2

-- `gekkota_bit_isset`, `gekkota_bit_set` and `gekkota_bit_unset` for one bit.
abbrev pub is_set : ℕ → ℕ → Bool
is_set flags k = flags / 2 ^ k % 2 == 1

abbrev pub bit_set : ℕ → ℕ → ℕ
bit_set flags k = if is_set flags k then flags else flags + 2 ^ k

abbrev pub bit_unset : ℕ → ℕ → ℕ
bit_unset flags k = if is_set flags k then flags - 2 ^ k else flags

pub is_set-bit_set : (flags : ℕ) → is_set (bit_set flags 0) 0 ≡ true
is_set-bit_set flags = ground arith

pub record Connect : Type 0 where
  pub client_id : ℕ
  pub session_id : ℕ
  pub channel_count : ℕ
  pub mtu : ℕ
  pub window_size : ℕ
  pub incoming_bandwidth : ℕ
  pub outgoing_bandwidth : ℕ
  pub throttle_interval : ℕ
  pub throttle_acceleration : ℕ
  pub throttle_deceleration : ℕ
  pub compression_level : ℕ

pub record Fragment : Type 0 where
  pub start_sequence_number : ℕ
  pub fragment_count : ℕ
  pub fragment_number : ℕ
  pub fragment_offset : ℕ
  pub total_length : ℕ
  pub len : ℕ

-- The members of the union `GekkotaXudpMessage` behind the header. A VALIDATE_CONNECT message is a
-- CONNECT message without a session.
pub data Body : Type 0 where
  no_body : Body
  acknowledged : (sequence_number sent_time : ℕ) → Body
  connecting : Connect → Body
  reliable : (len : ℕ) → Body
  unreliable : (sequence_number len : ℕ) → Body
  unsequenced : (group len : ℕ) → Body
  fragment : Fragment → Body
  bandwidth : (incoming outgoing : ℕ) → Body
  throttling : (interval acceleration deceleration : ℕ) → Body

pub record Message : Type 0 where
  pub message_type : MessageType
  pub channel_id : ℕ
  pub flags : ℕ
  pub sequence_number : ℕ
  pub body : Body

-- A packet by its bytes and flags. Who shares it, its reference count, is not part of this view.
pub record Packet : Type 0 where
  pub bytes : List ℕ
  pub flags : ℕ

pub record EndPoint : Type 0 where
  pub address : ℕ
  pub port : ℕ

pub data ClientState : Type 0 where
  disconnected connecting acknowledging_connect connection_pending : ClientState
  connection_succeeded connected delaying_disconnect disconnecting : ClientState
  acknowledging_disconnect zombie : ClientState

abbrev pub ClientState-discrete : Discrete ClientState
ClientState-discrete = hlevel

abbrev pub in_state : ClientState → ClientState → Bool
in_state a b = elim (ClientState-discrete a b) [ yes _ ↦ true | no _ ↦ false ]

pub in_state_refl : (s : ClientState) → in_state s s ≡ true
in_state_refl disconnected = refl
in_state_refl connecting = refl
in_state_refl acknowledging_connect = refl
in_state_refl connection_pending = refl
in_state_refl connection_succeeded = refl
in_state_refl connected = refl
in_state_refl delaying_disconnect = refl
in_state_refl disconnecting = refl
in_state_refl acknowledging_disconnect = refl
in_state_refl zombie = refl

pub record Acknowledgement : Type 0 where
  pub sent_time : ℕ
  pub message : Message

pub record Outgoing : Type 0 where
  pub reliable_sequence_number : ℕ
  pub unreliable_sequence_number : ℕ
  pub sent_time : ℕ
  pub round_trip_timeout : ℕ
  pub round_trip_timeout_limit : ℕ
  pub fragment_offset : ℕ
  pub fragment_length : ℕ
  pub packet : Option Packet
  pub message : Message

-- `fragments` has a bit for each fragment received, 32 to a word.
pub record Incoming : Type 0 where
  pub reliable_sequence_number : ℕ
  pub unreliable_sequence_number : ℕ
  pub fragment_count : ℕ
  pub fragments_remaining : ℕ
  pub fragments : List ℕ
  pub packet : Packet
  pub message : Message
  pub remote_endpoint : EndPoint

pub record Channel : Type 0 where
  pub outgoing_reliable_sequence_number : ℕ
  pub outgoing_unreliable_sequence_number : ℕ
  pub incoming_reliable_sequence_number : ℕ
  pub incoming_unreliable_sequence_number : ℕ
  pub incoming_reliable_messages : List Incoming
  pub incoming_unreliable_messages : List Incoming

-- `GekkotaXudpClient`; the compressor and the back pointer to the host stand outside.
pub record Client : Type 0 where
  pub session_id : ℕ
  pub local_client_id : ℕ
  pub remote_client_id : ℕ
  pub remote_endpoint : Option EndPoint
  pub is_multicast_group_member : Bool
  pub multicast_interface_index : ℕ
  pub state : ClientState
  pub channels : List Channel
  pub compression_level : ℕ
  pub incoming_bandwidth : ℕ
  pub outgoing_bandwidth : ℕ
  pub incoming_bandwidth_throttle_epoch : ℕ
  pub outgoing_bandwidth_throttle_epoch : ℕ
  pub incoming_data_total : ℕ
  pub outgoing_data_total : ℕ
  pub last_receive_time : ℕ
  pub next_timeout : ℕ
  pub earliest_timeout : ℕ
  pub packet_throttle : ℕ
  pub packet_throttle_limit : ℕ
  pub packet_throttle_counter : ℕ
  pub packet_throttle_epoch : ℕ
  pub packet_throttle_acceleration : ℕ
  pub packet_throttle_deceleration : ℕ
  pub packet_throttle_interval : ℕ
  pub round_trip_time : ℕ
  pub round_trip_time_variance : ℕ
  pub last_round_trip_time : ℕ
  pub last_round_trip_time_variance : ℕ
  pub lowest_round_trip_time : ℕ
  pub highest_round_trip_time_variance : ℕ
  pub mtu : ℕ
  pub window_size : ℕ
  pub reliable_data_in_transit : ℕ
  pub outgoing_reliable_sequence_number : ℕ
  pub incoming_unsequenced_group : ℕ
  pub outgoing_unsequenced_group : ℕ
  pub unsequenced_window : List ℕ
  pub acknowledgements : List Acknowledgement
  pub sent_reliable_messages : List Outgoing
  pub sent_unreliable_messages : List Outgoing
  pub outgoing_reliable_messages : List Outgoing
  pub outgoing_unreliable_messages : List Outgoing
