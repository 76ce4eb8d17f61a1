-- ===== src/Xudp/Client/Close.antt =====
-- Closing a client (src/gekkota/gekkota_xudpclient.c). The function `flush` stands for
-- `gekkota_xudp_flush` on the client's host, as far as it changes the client, with the sign of its
-- result. Memory given back, the compressor's reference count and the multicast groups
-- of the host's socket are not part of the client.
use gekkota.Base.{ℕ, [], none, Bool, true, false, Result, ok, err}
use gekkota.Base.{argument_not_valid}
use gekkota.Base.{Run, done, ◌>>=◌, NetOrder, replicate, is_empty, not, ◌&&◌, ◌||◌}
use gekkota.Base.{if◌then◌else◌}
use gekkota.Xudp.Types.{Client, MessageType, Body, ClientState, in_state}
use gekkota.Xudp.Client.Outgoing.{queue_outgoing_message, client_message}

pub data CloseMode : Type 0 where
  undefined graceful delayed immediate : CloseMode

unfoldable pub clear_message_queues : Client → Client
clear_message_queues c = record c {
  acknowledgements = [];
  sent_reliable_messages = [];
  sent_unreliable_messages = [];
  outgoing_reliable_messages = [];
  outgoing_unreliable_messages = [];
  channels = [];
}

-- The client's place among the clients of its host, and the host's mtu.
unfoldable pub reset : (place host_mtu : ℕ) → Client → Client
reset place host_mtu c = record c {
  local_client_id = place;
  remote_client_id = 65535;
  state = ClientState.disconnected;
  compression_level = 0;
  packet_throttle = 32;
  packet_throttle_limit = 32;
  packet_throttle_acceleration = 2;
  packet_throttle_deceleration = 2;
  packet_throttle_interval = 5000;
  last_round_trip_time = 500;
  lowest_round_trip_time = 500;
  round_trip_time = 500;
  mtu = host_mtu;
  window_size = 32768;
}

-- `memset` of the client up to its lists.
unfoldable pub zeroed : Client → Client
zeroed c = record c {
  session_id = 0;
  local_client_id = 0;
  remote_client_id = 0;
  remote_endpoint = none;
  is_multicast_group_member = false;
  multicast_interface_index = 0;
  channels = [];
  compression_level = 0;
  incoming_bandwidth = 0;
  outgoing_bandwidth = 0;
  incoming_bandwidth_throttle_epoch = 0;
  outgoing_bandwidth_throttle_epoch = 0;
  incoming_data_total = 0;
  outgoing_data_total = 0;
  last_receive_time = 0;
  next_timeout = 0;
  earliest_timeout = 0;
  packet_throttle = 0;
  packet_throttle_limit = 0;
  packet_throttle_counter = 0;
  packet_throttle_epoch = 0;
  packet_throttle_acceleration = 0;
  packet_throttle_deceleration = 0;
  packet_throttle_interval = 0;
  round_trip_time = 0;
  round_trip_time_variance = 0;
  last_round_trip_time = 0;
  last_round_trip_time_variance = 0;
  lowest_round_trip_time = 0;
  highest_round_trip_time_variance = 0;
  mtu = 0;
  window_size = 0;
  reliable_data_in_transit = 0;
  outgoing_reliable_sequence_number = 0;
  incoming_unsequenced_group = 0;
  outgoing_unsequenced_group = 0;
  unsequenced_window = replicate 4 0;
}

-- The state that `memset` leaves, UNDEFINED, is overwritten at once.
unfoldable pub destroy : (place host_mtu : ℕ) → Client → Client
unfolding clear_message_queues reset zeroed
destroy place host_mtu c = reset place host_mtu (zeroed (clear_message_queues c))

abbrev pub is_open : ClientState → Bool
is_open s = in_state s ClientState.connected || in_state s ClientState.delaying_disconnect

abbrev pub is_idle : Client → Bool
is_idle c =
    is_empty c.outgoing_reliable_messages
    && is_empty c.outgoing_unreliable_messages
    && is_empty c.sent_reliable_messages

pub data Sign : Type 0 where
  negative nought positive : Sign

-- The result is negative, or it is not.
pub data Outcome : Type 0 where
  failed finished : Outcome

abbrev pub is_negative : Sign → Bool
is_negative negative = true
is_negative _ = false

abbrev pub outcome : Sign → Outcome
outcome negative = failed
outcome _ = finished

module _ (o : NetOrder) (alloc : Bool) (place host_mtu : ℕ) (flush : Client → Client × Sign) where
  -- `gekkota_utils_min(flush, destroy)` is a macro that evaluates the smaller of the two again.
  unfoldable pub flush_and_destroy : Client → Client × Outcome
  unfolding destroy
  flush_and_destroy c =
      let f = flush c in
      let d = destroy place host_mtu f.0 in
      if is_negative f.1
      then (let again = flush d in (again.0, outcome again.1))
      else (destroy place host_mtu d, finished)

  unfoldable pub queue_close : Client → MessageType → (flags : ℕ) → Run (Client × Result (Unit {0}))
  unfolding queue_outgoing_message
  queue_close c type flags =
      queue_outgoing_message o alloc c (client_message o type flags Body.no_body) none 0 0

  leave_group : Client × Result (Unit {0}) → Client × Outcome
  unfolding flush_and_destroy
  leave_group (c, ok t) = flush_and_destroy c
  leave_group (c, err e) = (c, failed)

  disconnect : Client × Result (Unit {0}) → Client × Outcome
  unfolding flush_and_destroy
  disconnect (c, ok t) =
      if is_open c.state
      then (record c { state = ClientState.disconnecting }, finished)
      else flush_and_destroy c
  disconnect (c, err e) = (c, failed)

  unfoldable pub close_gracefully : Client → Run (Client × Outcome)
  unfolding queue_close leave_group disconnect
  close_gracefully c =
      if in_state c.state ClientState.disconnecting
        || in_state c.state ClientState.disconnected
        || in_state c.state ClientState.zombie
      then done (c, failed)
      else (let cleared = clear_message_queues c in
          if c.is_multicast_group_member
          then (queue_close cleared MessageType.leave_multicast_group 2 >>= λ r.
              done (leave_group r))
          else (queue_close cleared MessageType.disconnect (if is_open c.state then 1 else 2)
              >>= λ r. done (disconnect r)))

  unfoldable pub close_later : Client → Run (Client × Outcome)
  unfolding close_gracefully
  close_later c =
      if is_open c.state && not (is_idle c)
      then done (record c { state = ClientState.delaying_disconnect }, finished)
      else close_gracefully c

  unfoldable pub flushed : Client × Sign → Client × Outcome
  unfolding destroy
  flushed (c, nought) = (destroy place host_mtu c, finished)
  flushed (c, _) = (c, failed)

  unfoldable pub flush_now : Client × Result (Unit {0}) → Client × Outcome
  unfolding flushed
  flush_now (c, ok t) = flushed (flush c)
  flush_now (c, err e) = (c, failed)

  unfoldable pub close_now : Client → Run (Client × Outcome)
  unfolding queue_close flush_now destroy
  close_now c =
      if in_state c.state ClientState.disconnected
      then done (c, failed)
      else if in_state c.state ClientState.zombie || in_state c.state ClientState.disconnecting
      then done (destroy place host_mtu c, finished)
      else (queue_close (clear_message_queues c)
            (if c.is_multicast_group_member
              then MessageType.leave_multicast_group
              else MessageType.disconnect)
            2
          >>= λ r. done (flush_now r))

  unfoldable pub close_1 : CloseMode → Client → Run (Client × Result Outcome)
  unfolding close_gracefully close_later close_now
  close_1 graceful c = close_gracefully c >>= λ r. done (r.0, ok r.1)
  close_1 delayed c = close_later c >>= λ r. done (r.0, ok r.1)
  close_1 immediate c = close_now c >>= λ r. done (r.0, ok r.1)
  close_1 undefined c = done (c, err argument_not_valid)
