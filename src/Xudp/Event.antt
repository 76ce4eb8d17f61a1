-- ===== src/Xudp/Event.antt =====
-- Events (src/gekkota/gekkota_event.c), as a program that polls gets them. A client is its place in
-- the host's table. The host's functions leave the reference counts out.
use gekkota.Base.{Int32, plus, to_int32}
use gekkota.Base.{Result, ok, err, null_argument, u32, sub32, ◌+◌, ◌==◌, if◌then◌else◌}
use gekkota.Base.{ℕ, ◌%◌, Option, none, some, Bool, true, false}
use gekkota.Xudp.Types.{Packet, EndPoint}

pub data EventType : Type 0 where
  undefined connect disconnect join_multicast_group leave_multicast_group receive : EventType

pub record Event : Type 0 where
  pub event_type : EventType
  pub client : ℕ
  pub channel_id : ℕ
  pub packet : Option Packet
  pub remote_endpoint : Option EndPoint

-- `_gekkota_event_new`; the Boolean says whether the allocation succeeds.
unfoldable pub event_new :
    Bool → EventType → (client channel_id : ℕ) → Option Packet → Option EndPoint → Option Event
event_new false type client channel_id packet endpoint = none
event_new true type client channel_id packet endpoint = some (record {
  event_type = type;
  client = client;
  channel_id = channel_id % 256;
  packet = packet;
  remote_endpoint = endpoint;
})

-- An event with its reference count, for the program that is given it.
pub record Counted : Type 0 where
  pub event : Event
  pub reference_count : ℕ

unfoldable pub new_0 : Option Counted → Option Counted × Result (Unit {0})
new_0 none = (none, err null_argument)
new_0 (some e) = (some (record e { reference_count = u32 (e.reference_count + 1) }), ok tt)

-- The event that is left, the packet and the end point that lose a reference, and the result: 0, or
-- the references that are left.
unfoldable pub destroy :
    Option Counted → Option Counted × Option Packet × Option EndPoint × Result Int32
unfolding to_int32
destroy none = (none, none, none, err null_argument)
destroy (some e) =
    let n = sub32 e.reference_count 1 in
    if n == 0
    then (none, e.event.packet, e.event.remote_endpoint, ok (plus 0))
    else (some (record e { reference_count = n }), none, none, ok (to_int32 n))

unfoldable pub get_type : Option Counted → Result EventType
get_type none = err null_argument
get_type (some e) = ok e.event.event_type

unfoldable pub get_client : Option Counted → Result ℕ
get_client none = err null_argument
get_client (some e) = ok e.event.client

unfoldable pub get_channel_id : Option Counted → Result ℕ
get_channel_id none = err null_argument
get_channel_id (some e) = ok e.event.channel_id

unfoldable pub get_packet : Option Counted → Result (Option Packet)
get_packet none = err null_argument
get_packet (some e) = ok e.event.packet

unfoldable pub get_event_endpoint : Option Counted → Result (Option EndPoint)
get_event_endpoint none = err null_argument
get_event_endpoint (some e) = ok e.event.remote_endpoint
