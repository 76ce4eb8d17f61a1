-- ===== src/Xudp/Host/Create.antt =====
-- `_gekkota_xudp_new`, `gekkota_xudp_new_4`, `_new_5` and `gekkota_xudp_destroy`
-- (src/gekkota/gekkota_xudp.c). A host is its clients and bandwidths; `sockets` is the result of
-- making a socket for an end point.
use gekkota.Base.{
  ℕ, zero, suc, List, [], ◌∷◌, Option, none, some, Bool, true, false, Result, ok, err, NetOrder,
  lib_not_initialized, out_of_memory, null_argument,
}
use gekkota.Base.{replicate, ◌==◌, if◌then◌else◌}
use gekkota.Hash.{hash_16}
use gekkota.Xudp.Types.{Client, EndPoint, ClientState}
use gekkota.Xudp.Client.Close.{reset, destroy}
use gekkota.Xudp.Host.Bandwidth.{Host}

-- The memory of a client that is cleared. Its state has no name; it is reset before it is read.
abbrev pub blank : Client
blank = record {
  session_id = 0;
  local_client_id = 0;
  remote_client_id = 0;
  remote_endpoint = none;
  is_multicast_group_member = false;
  multicast_interface_index = 0;
  state = ClientState.disconnected;
  channels = [];
  compression_level = 0;
  incoming_bandwidth = 0;
  outgoing_bandwidth = 0;
  incoming_bandwidth_throttle_epoch = 0;
  outgoing_bandwidth_throttle_epoch = 0;
  incoming_data_total = 0;
  outgoing_data_total = 0;
  last_receive_time = 0;
  next_timeout = 0;
  earliest_timeout = 0;
  packet_throttle = 0;
  packet_throttle_limit = 0;
  packet_throttle_counter = 0;
  packet_throttle_epoch = 0;
  packet_throttle_acceleration = 0;
  packet_throttle_deceleration = 0;
  packet_throttle_interval = 0;
  round_trip_time = 0;
  round_trip_time_variance = 0;
  last_round_trip_time = 0;
  last_round_trip_time_variance = 0;
  lowest_round_trip_time = 0;
  highest_round_trip_time_variance = 0;
  mtu = 0;
  window_size = 0;
  reliable_data_in_transit = 0;
  outgoing_reliable_sequence_number = 0;
  incoming_unsequenced_group = 0;
  outgoing_unsequenced_group = 0;
  unsequenced_window = replicate 4 0;
  acknowledgements = [];
  sent_reliable_messages = [];
  sent_unreliable_messages = [];
  outgoing_reliable_messages = [];
  outgoing_unreliable_messages = [];
}

-- `GEKKOTA_XUDP_DEFAULT_MTU` and `GEKKOTA_XUDP_DEFAULT_CLIENT_COUNT`.
abbrev pub default_mtu : ℕ
default_mtu = 1400

abbrev pub default_client_count : ℕ
default_client_count = 16

-- The clients from a place on.
unfoldable pub new_clients : (count place : ℕ) → List Client
unfolding reset
new_clients zero place = []
new_clients (suc n) place = reset place default_mtu blank ∷ new_clients n (suc place)

-- The number of the protocol, from the text "XUDP".
unfoldable pub protocol_number : NetOrder → ℕ
unfolding hash_16
protocol_number o = o.hton16 (hash_16 (some (0x58 ∷ 0x55 ∷ 0x44 ∷ 0x50 ∷ [])))

abbrev pub fresh_host : (count : ℕ) → Host
fresh_host count = record {
  incoming_bandwidth = 0;
  outgoing_bandwidth = 0;
  bandwidth_throttle_epoch = 0;
  reconfigure_bandwidth = false;
  clients = new_clients (if count == 0 then default_client_count else count) 0;
}

with_socket : (count : ℕ) → Result (Unit {0}) → Result Host
with_socket count (ok t) = ok (fresh_host count)
with_socket count (err e) = err e

module _ (alloc : Bool) (sockets : EndPoint → Result (Unit {0})) where
  unfoldable pub new_host : EndPoint → (count : ℕ) → Result Host
  unfolding with_socket
  new_host e count = if alloc then with_socket count (sockets e) else err out_of_memory

  unfoldable pub new_5 : (is_initialized : Bool) → EndPoint → (count : ℕ) → Result Host
  unfolding new_host
  new_5 true e count = new_host e count
  new_5 false e count = err lib_not_initialized

  -- The end point that is made for the port may fail.
  with_endpoint : Result EndPoint → (count : ℕ) → Result Host
  unfolding new_host
  with_endpoint (ok e) count = new_host e count
  with_endpoint (err x) count = err x

  unfoldable pub new_4 :
      (is_initialized : Bool) → (port : Result EndPoint) → (count : ℕ) → Result Host
  unfolding with_endpoint
  new_4 true e count = with_endpoint e count
  new_4 false e count = err lib_not_initialized

-- Each client is destroyed; the host is given back.
unfoldable pub destroyed_from : (place : ℕ) → List Client → List Client
unfolding destroy
destroyed_from place [] = []
destroyed_from place (c ∷ cs) = destroy place default_mtu c ∷ destroyed_from (suc place) cs

unfoldable pub destroy_host : Option Host → Option (List Client) × Result (Unit {0})
unfolding destroyed_from
destroy_host none = (none, err null_argument)
destroy_host (some h) = (some (destroyed_from 0 h.clients), ok tt)
