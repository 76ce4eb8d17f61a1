-- ===== src/Xudp/Host/Wire.antt =====
-- The bytes of a datagram that was received, read as a header and messages: the structures of
-- src/gekkota/gekkota_xudp_internal.h in the memory of a little-endian machine, with natural
-- alignment. A received message is its header with the number in the host's byte order and, behind
-- it, numbers as the network has them.
use gekkota.Base.{ℕ, ◌+◌, ◌*◌, ◌/◌, ◌%◌, List, [], ◌∷◌, Option, get_or, get_elem?}
use gekkota.Xudp.Host.Flush.{Header}
use gekkota.Xudp.Types.{Message, MessageType, Body, Connect, Fragment}

-- Reads of one, two and four bytes; the callers have checked that they are there.
abbrev pub byte_at : List ℕ → ℕ → ℕ
byte_at bytes i = get_or bytes i 0

abbrev pub half_at : List ℕ → ℕ → ℕ
half_at bytes i = byte_at bytes i + byte_at bytes (i + 1) * 256

abbrev pub word_at : List ℕ → ℕ → ℕ
word_at bytes i = half_at bytes i + half_at bytes (i + 2) * 65536

unfoldable pub read_header : List ℕ → Header
read_header bytes = record {
  protocol_id = half_at bytes 0;
  version = byte_at bytes 2;
  session_id = word_at bytes 4;
  client_id = half_at bytes 8;
  sent_time = half_at bytes 10;
}

-- The structure of a header in the memory, with a byte of padding.
unfoldable pub header_bytes : (padding : ℕ) → Header → List ℕ
header_bytes padding h =
    h.protocol_id % 256
    ∷ h.protocol_id / 256 % 256
    ∷ h.version % 256
    ∷ padding
    ∷ h.session_id % 256
    ∷ h.session_id / 256 % 256
    ∷ h.session_id / 65536 % 256
    ∷ h.session_id / 16777216 % 256
    ∷ h.client_id % 256
    ∷ h.client_id / 256 % 256
    ∷ h.sent_time % 256
    ∷ h.sent_time / 256 % 256
    ∷ []

-- The message types by their numbers, which have an entry in `messageSizes` and `messageHandlers`.
abbrev pub message_types : List MessageType
message_types =
    MessageType.undefined ∷ MessageType.acknowledge ∷ MessageType.connect
    ∷ MessageType.validate_connect ∷ MessageType.disconnect ∷ MessageType.join_multicast_group
    ∷ MessageType.leave_multicast_group ∷ MessageType.ping ∷ MessageType.reliable_data
    ∷ MessageType.unreliable_data ∷ MessageType.unsequenced_data ∷ MessageType.data_fragment
    ∷ MessageType.configure_bandwidth ∷ MessageType.configure_throttle ∷ []

unfoldable pub type_of : ℕ → Option MessageType
type_of n = get_elem? message_types n

abbrev connect_at : List ℕ → Connect
connect_at b = record {
  client_id = half_at b 6;
  session_id = word_at b 8;
  channel_count = byte_at b 12;
  mtu = half_at b 14;
  window_size = word_at b 16;
  incoming_bandwidth = word_at b 20;
  outgoing_bandwidth = word_at b 24;
  throttle_interval = word_at b 28;
  throttle_acceleration = word_at b 32;
  throttle_deceleration = word_at b 36;
  compression_level = byte_at b 40;
}

-- The message has no session.
abbrev validate_connect_at : List ℕ → Connect
validate_connect_at b = record {
  client_id = half_at b 6;
  session_id = 0;
  channel_count = byte_at b 8;
  mtu = half_at b 10;
  window_size = word_at b 12;
  incoming_bandwidth = word_at b 16;
  outgoing_bandwidth = word_at b 20;
  throttle_interval = word_at b 24;
  throttle_acceleration = word_at b 28;
  throttle_deceleration = word_at b 32;
  compression_level = byte_at b 36;
}

abbrev fragment_at : List ℕ → Fragment
fragment_at b = record {
  start_sequence_number = half_at b 6;
  fragment_count = word_at b 8;
  fragment_number = word_at b 12;
  fragment_offset = word_at b 16;
  total_length = word_at b 20;
  len = half_at b 24;
}

unfoldable pub body_of : MessageType → List ℕ → Body
body_of MessageType.undefined b = Body.no_body
body_of MessageType.acknowledge b = Body.acknowledged (half_at b 6) (half_at b 8)
body_of MessageType.connect b = Body.connecting (connect_at b)
body_of MessageType.validate_connect b = Body.connecting (validate_connect_at b)
body_of MessageType.disconnect b = Body.no_body
body_of MessageType.join_multicast_group b = Body.no_body
body_of MessageType.leave_multicast_group b = Body.no_body
body_of MessageType.ping b = Body.no_body
body_of MessageType.reliable_data b = Body.reliable (half_at b 6)
body_of MessageType.unreliable_data b = Body.unreliable (half_at b 6) (half_at b 8)
body_of MessageType.unsequenced_data b = Body.unsequenced (half_at b 6) (half_at b 8)
body_of MessageType.data_fragment b = Body.fragment (fragment_at b)
body_of MessageType.configure_bandwidth b = Body.bandwidth (word_at b 8) (word_at b 12)
body_of MessageType.configure_throttle b =
    Body.throttling (word_at b 8) (word_at b 12) (word_at b 16)

-- `ntohs` is what the host's byte order makes of a number.
unfoldable pub message_at : (ntohs : ℕ → ℕ) → MessageType → List ℕ → Message
unfolding body_of
message_at ntohs type b = record {
  message_type = type;
  channel_id = byte_at b 1;
  flags = byte_at b 2;
  sequence_number = ntohs (half_at b 4);
  body = body_of type b;
}
