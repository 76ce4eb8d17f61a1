-- ===== src/Xudp/Host/Connect.antt =====
-- Opening a connection: `gekkota_xudp_connect_3`, `_gekkota_xudp_on_connect_message` and
-- `_gekkota_xudp_on_validate_connect_message` (src/gekkota/gekkota_xudp.c), built without
-- CRC32_ENABLED. A VALIDATE_CONNECT message is a `Connect` whose session is 0.
use gekkota.Base.{ℕ, suc, List, [], ◌∷◌, Option, none, some, Bool, false, Result, ok, err, NetOrder}
use gekkota.Base.{argument_not_valid, max_client_reached, out_of_memory, Run, done, ◌>>=◌}
use gekkota.Base.{length, replicate, set, ltb, ◌==◌, ◌&&◌, ◌||◌, not, if◌then◌else◌}
use gekkota.Xudp.Types.{
  Client, Channel, Connect, MessageType, Body, EndPoint, ClientState, in_state,
}
use gekkota.Xudp.Client.Outgoing.{queue_outgoing_message, client_message}
use gekkota.Xudp.Client.Close.{destroy}
use gekkota.Xudp.Window.{window_for, scaled, clamped, max_window_size}

-- What a connection takes from its host.
pub record Settings : Type 0 where
  pub host_mtu : ℕ
  pub incoming_bandwidth : ℕ
  pub outgoing_bandwidth : ℕ

abbrev pub empty_channel : Channel
empty_channel = record {
  outgoing_reliable_sequence_number = 0;
  outgoing_unreliable_sequence_number = 0;
  incoming_reliable_sequence_number = 0;
  incoming_unreliable_sequence_number = 0;
  incoming_reliable_messages = [];
  incoming_unreliable_messages = [];
}

-- The first client that is free.
unfoldable pub find_free : List Client → Option (ℕ × Client)
find_free [] = none
find_free (c ∷ cs) =
    let rest = find_free cs in
    if in_state c.state ClientState.disconnected
    then some (0, c)
    else elim rest [ none ↦ none | some (i, d) ↦ some (suc i, d) ]

abbrev pub clamped_mtu : ℕ → ℕ
clamped_mtu mtu = if ltb mtu 576 then 576 else if ltb 4096 mtu then 4096 else mtu

module _ (o : NetOrder) (h : Settings) where
  -- `sizeof(GekkotaChannel) * 0` bytes cannot be allocated.
  abbrev pub can_allocate : Bool → ℕ → Bool
  can_allocate alloc count = alloc && not (count == 0)

  unfoldable pub connecting_client : Client → EndPoint → (count level session : ℕ) → Client
  connecting_client c endpoint count level session = record c {
    channels = replicate count empty_channel;
    state = ClientState.connecting;
    remote_endpoint = some endpoint;
    is_multicast_group_member = false;
    session_id = session;
    compression_level = level;
    window_size =
        if h.outgoing_bandwidth == 0
        then max_window_size
        else clamped (scaled h.outgoing_bandwidth);
  }

  -- The body of the CONNECT message of a client.
  unfoldable pub connect_body : Client → Connect
  connect_body c = record {
    client_id = o.hton16 c.local_client_id;
    session_id = c.session_id;
    channel_count = length c.channels;
    mtu = o.hton16 c.mtu;
    window_size = o.hton32 c.window_size;
    incoming_bandwidth = o.hton32 h.incoming_bandwidth;
    outgoing_bandwidth = o.hton32 h.outgoing_bandwidth;
    throttle_interval = o.hton32 c.packet_throttle_interval;
    throttle_acceleration = o.hton32 c.packet_throttle_acceleration;
    throttle_deceleration = o.hton32 c.packet_throttle_deceleration;
    compression_level = c.compression_level;
  }

  -- The client with its first message queued, or given back.
  unfoldable pub queued_or_destroyed :
      (place : ℕ) → Client × Result (Unit {0}) → Result Client × Client
  unfolding destroy
  queued_or_destroyed place (c, ok t) = (ok c, c)
  queued_or_destroyed place (c, err e) = (err e, destroy place h.host_mtu c)

  -- The table of clients and the place of the client.
  unfoldable pub placed :
      List Client → (place : ℕ) → Result Client × Client → List Client × Result ℕ
  placed cs place (ok d, c) = (set cs place c, ok place)
  placed cs place (err e, c) = (set cs place c, err e)

  connect_free :
      (alloc_channels alloc_message : Bool)
      → List Client
      → EndPoint
      → (count level session : ℕ) → Option (ℕ × Client)
      → Run (List Client × Result ℕ)
  unfolding connecting_client connect_body queued_or_destroyed placed queue_outgoing_message
  connect_free alloc_channels alloc_message cs endpoint count level session none =
      done (cs, err max_client_reached)
  connect_free alloc_channels alloc_message cs endpoint count level session (some (place, c)) =
      if can_allocate alloc_channels count
      then (let c' = connecting_client c endpoint count level session in
          queue_outgoing_message o alloc_message c'
            (client_message o MessageType.connect 1 (Body.connecting (connect_body c'))) none 0 0
          >>= λ r. done (placed cs place (queued_or_destroyed place r)))
      else done (cs, err out_of_memory)

  -- `gekkota_xudp_connect_3` on arguments that are not NULL. The arguments after the clients say
  -- whether the address is a multicast address and what `rand` returns.
  unfoldable pub connect_3 :
      (alloc_channels alloc_message : Bool)
      → List Client
      → (is_multicast : Bool) → (random : ℕ) → EndPoint
      → (count level : ℕ) → Run (List Client × Result ℕ)
  unfolding connect_free find_free
  connect_3 alloc_channels alloc_message cs is_multicast random endpoint count level =
      if is_multicast || ltb level 13 || ltb 18 level
      then done (cs, err argument_not_valid)
      else connect_free alloc_channels alloc_message cs endpoint (if count == 0 then 1 else count)
          level random (find_free cs)

  -- The window that the host offers to a client that asks for `theirs`.
  unfoldable pub offered_window : (theirs : ℕ) → ℕ
  offered_window theirs =
      if h.incoming_bandwidth == 0
      then max_window_size
      else (let w = scaled h.incoming_bandwidth in clamped (if ltb theirs w then theirs else w))

  unfoldable pub accepting_client : Client → EndPoint → Connect → Client
  accepting_client c endpoint m = record c {
    channels = replicate m.channel_count empty_channel;
    session_id = m.session_id;
    remote_client_id = o.ntoh16 m.client_id;
    remote_endpoint = some endpoint;
    is_multicast_group_member = false;
    state = ClientState.acknowledging_connect;
    incoming_bandwidth = o.ntoh32 m.incoming_bandwidth;
    outgoing_bandwidth = o.ntoh32 m.outgoing_bandwidth;
    packet_throttle_interval = o.ntoh32 m.throttle_interval;
    packet_throttle_acceleration = o.ntoh32 m.throttle_acceleration;
    packet_throttle_deceleration = o.ntoh32 m.throttle_deceleration;
    compression_level = m.compression_level;
    mtu = clamped_mtu (o.ntoh16 m.mtu);
    window_size = window_for (o.ntoh32 m.incoming_bandwidth) h.outgoing_bandwidth;
  }

  -- The body of the VALIDATE_CONNECT message that answers a CONNECT message.
  unfoldable pub validate_body : Client → Connect → Connect
  unfolding offered_window
  validate_body c m = record {
    client_id = o.hton16 c.local_client_id;
    session_id = 0;
    channel_count = m.channel_count;
    mtu = o.hton16 c.mtu;
    window_size = o.hton32 (offered_window (o.ntoh32 m.window_size));
    incoming_bandwidth = o.hton32 h.incoming_bandwidth;
    outgoing_bandwidth = o.hton32 h.outgoing_bandwidth;
    throttle_interval = o.hton32 c.packet_throttle_interval;
    throttle_acceleration = o.hton32 c.packet_throttle_acceleration;
    throttle_deceleration = o.hton32 c.packet_throttle_deceleration;
    compression_level = c.compression_level;
  }
