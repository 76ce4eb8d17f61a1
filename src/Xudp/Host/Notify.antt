-- ===== src/Xudp/Host/Notify.antt =====
-- `_gekkota_xudp_notify_connect` and `_gekkota_xudp_notify_disconnect` (src/gekkota/gekkota_xudp.c).
use gekkota.Base.{
  ℕ, Option, none, some, Bool, true, false, ◌&&◌, not, ltb, leb, if◌then◌else◌, is_some,
}
use gekkota.Xudp.Types.{Client, ClientState, in_state}
use gekkota.Xudp.Event.{Event, EventType, event_new}
use gekkota.Xudp.Client.Close.{destroy}

-- The host and the call that a client is serviced in: the client's place, the host's mtu, whether
-- the caller asks for an event, and whether its allocation succeeds.
pub record Service : Type 0 where
  pub place : ℕ
  pub host_mtu : ℕ
  pub wants_event : Bool
  pub alloc_event : Bool

-- The client, the host's `reconfigureBandwidth`, the event, and whether the result is -1.
pub record Notice : Type 0 where
  pub client : Client
  pub reconfigure : Bool
  pub event : Option Event
  pub failed : Bool

-- The number of a state in `GekkotaClientState`.
abbrev pub rank : ClientState → ℕ
rank ClientState.disconnected = 1
rank ClientState.connecting = 2
rank ClientState.acknowledging_connect = 3
rank ClientState.connection_pending = 4
rank ClientState.connection_succeeded = 5
rank ClientState.connected = 6
rank ClientState.delaying_disconnect = 7
rank ClientState.disconnecting = 8
rank ClientState.acknowledging_disconnect = 9
rank ClientState.zombie = 10

unfoldable pub with_connect_event : Client → Option Event → Notice
with_connect_event c none = record { client = c; reconfigure = true; event = none; failed = true }
with_connect_event c (some e) = record {
  client = record c { state = ClientState.connected };
  reconfigure = true;
  event = some e;
  failed = false;
}

unfoldable pub notify_connect : Service → Client → Notice
unfolding event_new with_connect_event
notify_connect s c =
    if s.wants_event
    then with_connect_event c
        (event_new s.alloc_event EventType.connect s.place 0 none c.remote_endpoint)
    else record {
      client = record c {
        state =
            if in_state c.state ClientState.connecting
            then ClientState.connection_succeeded
            else ClientState.connection_pending;
      };
      reconfigure = true;
      event = none;
      failed = false;
    }

with_disconnect_event : Client → Bool → Option Event → Notice
with_disconnect_event c reconfigure e = record {
  client = c;
  reconfigure = reconfigure;
  event = e;
  failed = not (is_some e);
}

unfoldable pub notify_disconnect : Service → (reconfigure : Bool) → Client → Notice
unfolding event_new with_disconnect_event destroy
notify_disconnect s reconfigure c =
    let r = if leb 4 (rank c.state) then true else reconfigure in
    if not (in_state c.state ClientState.connecting) && ltb (rank c.state) 5
    then record {
      client = destroy s.place s.host_mtu c;
      reconfigure = r;
      event = none;
      failed = false;
    }
    else if s.wants_event
    then with_disconnect_event (destroy s.place s.host_mtu c) r
        (event_new s.alloc_event EventType.disconnect s.place 0 none c.remote_endpoint)
    else record {
      client = record c { state = ClientState.zombie };
      reconfigure = r;
      event = none;
      failed = false;
    }
