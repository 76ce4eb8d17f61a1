-- ===== src/Xudp/Host/Multicast.antt =====
-- `gekkota_xudp_join_multicast_group_1` (src/gekkota/gekkota_xudp.c) on arguments that are not NULL.
-- The function `name` stands for the text of an end point, its address and its port.
use gekkota.Base.{ℕ, suc, List, [], ◌∷◌, none, some, Bool, true, Result, err, NetOrder}
use gekkota.Base.{
  max_client_reached, out_of_memory, multicast_group_already_joined, Run, done, ◌>>=◌, found,
  replicate, ◌==◌, ◌&&◌, not, if◌then◌else◌,
}
use gekkota.Hash.{hash_16}
use gekkota.Xudp.Types.{Client, MessageType, Body, EndPoint, ClientState, in_state}
use gekkota.Xudp.Client.Outgoing.{queue_outgoing_message, client_message}
use gekkota.Xudp.Window.{scaled, clamped, max_window_size}
use gekkota.Xudp.Host.Connect.{Settings, empty_channel, queued_or_destroyed, placed}

-- What the search for a client finds: a group that is joined already, no free client, or one.
pub data Search : Type 0 where
  joined full : Search
  free : (place : ℕ) → Client → Search

abbrev pub further : Search → Search
further joined = joined
further full = full
further (free place c) = free (suc place) c

module _ (interface : ℕ) (group : EndPoint) where
  abbrev pub is_candidate : Client → Bool
  is_candidate c =
      in_state c.state ClientState.connected
      && c.is_multicast_group_member
      && (c.multicast_interface_index == interface)

  abbrev is_group : EndPoint → Bool
  is_group e = (e.address == group.address) && (e.port == group.port)

  -- The search ends at the first client that is free. The end point of a member must not be NULL.
  unfoldable pub search : List Client → Run Search
  search [] = done full
  search (c ∷ cs) =
      let rest = search cs >>= λ r. done (further r) in
      if is_candidate c
      then (found c.remote_endpoint >>= λ e. if is_group e then done joined else rest)
      else if in_state c.state ClientState.disconnected
      then done (free 0 c)
      else rest

module _ (o : NetOrder) (h : Settings) (name : EndPoint → List ℕ) where
  -- The compression level is GEKKOTA_COMPRESSION_LEVEL_FAST.
  unfoldable pub joining_client : Client → (interface : ℕ) → EndPoint → (count : ℕ) → Client
  unfolding hash_16
  joining_client c interface group count = record c {
    channels = replicate count empty_channel;
    remote_client_id = hash_16 (some (name group));
    remote_endpoint = some group;
    is_multicast_group_member = true;
    multicast_interface_index = interface;
    state = ClientState.connected;
    compression_level = 15;
    window_size =
        if h.outgoing_bandwidth == 0
        then max_window_size
        else clamped (scaled h.outgoing_bandwidth);
  }

  -- The socket joins the group if the port is its own; `joins` is the result of that.
  joining :
      (own_port : Bool)
      → Result (Unit {0})
      → List Client
      → Run (List Client × Result ℕ)
      → Run (List Client × Result ℕ)
  joining true (err e) cs rest = done (cs, err e)
  joining own_port r cs rest = rest

  join_found :
      (alloc_channels alloc_message : Bool)
      → (joins : Result (Unit {0})) → List Client
      → (local_port interface : ℕ) → EndPoint
      → (count : ℕ) → Search
      → Run (List Client × Result ℕ)
  unfolding joining joining_client queue_outgoing_message queued_or_destroyed placed
  join_found alloc_channels alloc_message joins cs local_port interface group count joined =
      done (cs, err multicast_group_already_joined)
  join_found alloc_channels alloc_message joins cs local_port interface group count full =
      done (cs, err max_client_reached)
  join_found alloc_channels alloc_message joins cs local_port interface group count (free place c) =
      if not alloc_channels
      then done (cs, err out_of_memory)
      else (joining (group.port == local_port) joins cs (
          queue_outgoing_message o alloc_message (joining_client c interface group count)
            (client_message o MessageType.join_multicast_group 2 Body.no_body) none 0 0
          >>= λ r. done (placed o h cs place (queued_or_destroyed o h place r))))

  unfoldable pub join_multicast_group :
      (alloc_channels alloc_message : Bool)
      → (joins : Result (Unit {0})) → List Client
      → (local_port interface : ℕ) → EndPoint
      → (count : ℕ) → Run (List Client × Result ℕ)
  unfolding search join_found
  join_multicast_group alloc_channels alloc_message joins cs local_port interface group count =
      search interface group cs
      >>= join_found alloc_channels alloc_message joins cs local_port interface group
          (if count == 0 then 1 else count)
