-- ===== src/Xudp/Host/Receiving/Tests.antt =====
-- The theorems on the datagrams that a host receives at concrete inputs.
use gekkota.Base.{
  ℕ, ◌≡◌, ◌≢◌, ◌⊎◌, inl, refl, arith, List, [], ◌∷◌, some, none, true, false, ok, done, stuck,
  Gives, ◌++◌, replicate, length, little_endian,
}
use gekkota.Xudp.Types.{Client}
use gekkota.Xudp.Samples.{client, endpoint}
use gekkota.Xudp.Client.Outgoing.{clean}
use gekkota.Xudp.Client.Close.{nought}
use gekkota.Xudp.Host.Datagram.{empty_datagram}
use gekkota.Xudp.Acknowledge.{acknowledge}
use gekkota.Xudp.Host.Handlers.{on_ping}
use gekkota.Xudp.Host.Flush.{Call, Transmission, transmission}
use gekkota.Xudp.Host.Wire.{header_bytes, read_header, type_of, message_at, body_of}
use gekkota.Xudp.Host.Receive.{
  Cursor, Reception, open_header, open_datagram, assign_client, find_unicast, assign, behind_header,
  next_message, opened, get_at, sized_message, same_address, with_clients, get_message_handler_args,
}
use gekkota.Xudp.Host.Messages.{
  World, read_messages, next_round, by_message, handle, handle_at, to_client, by_type, handled,
  with_handled, after_handler, acknowledge_at, acknowledged_in,
}
use gekkota.Xudp.Host.Hanging.{IsForeign, read_messages-decides, read_messages-foreign}
use gekkota.Xudp.Host.Authentic.{Assigns, open_datagram-Assigns}
use gekkota.Xudp.Host.Reaches.{received_by, sent_bytes, read_back, transmission-reaches}

-- A host of the protocol 7, in little-endian memory 7 and 0, with a client at the sender's address.
abbrev world : World
world = record {
  settings = record { host_mtu = 1400; incoming_bandwidth = 0; outgoing_bandwidth = 0 };
  protocol_id = 7;
  now = 1000;
  wants_event = true;
  alloc_event = true;
  alloc_channels = true;
  alloc_acknowledgement = clean;
  flush_host = λ c. (c, nought);
  receipt = record {
    memory = record {
      alloc = λ n initialize. ok (record { address = 8; bytes = replicate n 7 });
      realloc = λ b n initialize. ok (record { address = 8; bytes = replicate n 7 });
    };
    alloc_packet = true;
    alloc_message = true;
    address = 16;
    sender = endpoint;
  };
}

abbrev peer : Client
peer = record client { remote_endpoint = some endpoint }

abbrev fresh : Reception
fresh = record {
  table = record { clients = peer ∷ []; last_serviced = 0; reconfigure = false };
  event = none;
  cursor = Cursor.unread;
}

-- A header of ten bytes for the session 1 and the client 0.
abbrev header : List ℕ
header = 7 ∷ 0 ∷ 4 ∷ 0 ∷ 1 ∷ 0 ∷ 0 ∷ 0 ∷ 0 ∷ 0 ∷ []

-- A PING message with the number 1.
abbrev ping_message : List ℕ
ping_message = 7 ∷ 255 ∷ 0 ∷ 0 ∷ 0 ∷ 1 ∷ []

abbrev pings : List ℕ
pings = header ++ ping_message ++ ping_message

-- Both messages are read.
pings_end :
    (s : Reception) × (read_messages little_endian world pings 24 fresh ≡ done (s, true))
    × (s.table.clients ≡ received_by 22 peer ∷ [])
unfolding read_messages next_round get_message_handler_args get_at opened open_datagram open_header
    read_header assign_client find_unicast assign behind_header same_address with_clients
    next_message sized_message type_of message_at body_of by_message handle handle_at to_client
    by_type handled with_handled on_ping after_handler acknowledge_at acknowledge acknowledged_in
pings_end = (_, refl, refl)

read_messages-decides_example :
    (read_messages little_endian world pings 24 fresh ≢ stuck)
    ⊎ ((fuel : ℕ) → read_messages little_endian world pings fuel fresh ≡ stuck)
read_messages-decides_example = read_messages-decides little_endian world pings fresh refl

too_short : IsForeign 7 (7 ∷ 0 ∷ [])
unfolding IsForeign
too_short = inl (omega arith)

read_messages-foreign_example : read_messages little_endian world (7 ∷ 0 ∷ []) 1000 fresh ≡ stuck
read_messages-foreign_example =
    read_messages-foreign little_endian world (7 ∷ 0 ∷ []) fresh refl too_short 1000

open_datagram-Assigns_example :
    Gives
      (Assigns little_endian 7 endpoint pings (read_header pings) (peer ∷ []))
      (open_datagram little_endian 7 endpoint pings fresh)
open_datagram-Assigns_example = open_datagram-Assigns little_endian 7 endpoint pings fresh

abbrev sent_call : Call
sent_call = record {
  now = 1000;
  protocol_id = 7;
  check = false;
  alloc_ping = true;
  keeps = λ p. true;
}

abbrev contents : List ℕ
contents = ping_message ++ ping_message

abbrev with_time : Transmission
with_time = transmission little_endian sent_call (λ t. true) client (empty_datagram 1)

transmission-reaches_example :
    open_datagram little_endian 7 endpoint (sent_bytes 0 with_time contents) fresh
    ≡ done (
        some (record fresh {
          table = record fresh.table {
            clients = received_by (length (sent_bytes 0 with_time contents)) peer ∷ [];
          };
          cursor = Cursor.reading (read_back with_time contents) (some 0) contents;
        }))
transmission-reaches_example =
    transmission-reaches little_endian sent_call (λ t. true) client (empty_datagram 1) 0 contents
      endpoint fresh peer endpoint (omega arith) (omega arith) (omega arith) (omega arith) refl refl
      refl refl refl refl

-- The header that is sent, and the one that is read.
header_read :
    (sent_bytes 0 with_time contents ≡ 7 ∷ 0 ∷ 5 ∷ 0 ∷ 1 ∷ 0 ∷ 0 ∷ 0 ∷ 0 ∷ 0 ∷ 3 ∷ 232 ∷ contents)
    × ((read_back with_time contents).sent_time ≡ 59395)
unfolding transmission header_bytes
header_read = (refl, refl)

-- Three bytes behind the messages are too few for another one, and the loop has no end.
bytes_left : read_messages little_endian world (pings ++ (1 ∷ 2 ∷ 3 ∷ [])) 1000 fresh ≡ stuck
unfolding read_messages next_round get_message_handler_args get_at opened open_datagram open_header
    read_header assign_client find_unicast assign behind_header same_address with_clients
    next_message sized_message type_of message_at body_of by_message handle handle_at to_client
    by_type handled with_handled on_ping after_handler acknowledge_at acknowledge acknowledged_in
bytes_left = refl
