-- ===== src/Xudp/Host/Accept.antt =====
-- `_gekkota_xudp_on_connect_message` and `_gekkota_xudp_on_validate_connect_message`
-- (src/gekkota/gekkota_xudp.c), built without CRC32_ENABLED.
use gekkota.Base.{ℕ, List, [], ◌∷◌, Option, none, some, Bool, false, Result, ok, err, NetOrder}
use gekkota.Base.{Run, done, ◌>>=◌, length, ltb, ◌==◌, ◌&&◌, ◌||◌, not, if◌then◌else◌}
use gekkota.Xudp.Types.{Client, Connect, MessageType, Body, EndPoint, ClientState, in_state}
use gekkota.Xudp.Client.Outgoing.{queue_outgoing_message, client_message}
use gekkota.Xudp.Window.{min_window_size, max_window_size}
use gekkota.Xudp.Acknowledge.{dispose_acknowledged_message}
use gekkota.Xudp.Event.{Event}
use gekkota.Xudp.Host.Notify.{Service, Notice, notify_connect}
use gekkota.Xudp.Host.Connect.{Settings, find_free, can_allocate, accepting_client, validate_body}
use gekkota.Xudp.Host.Connect.{queued_or_destroyed, placed, clamped_mtu}

-- The results 0, 1 and -1 of a handler.
pub data Code : Type 0 where
  discarded processed failed : Code

-- `gekkota_ipendpoint_equals`.
abbrev pub same_endpoint : EndPoint → Option EndPoint → Bool
same_endpoint e none = false
same_endpoint e (some f) = (e.port == f.port) && (e.address == f.address)

unfoldable pub is_connected : EndPoint → (session : ℕ) → List Client → Bool
is_connected e session [] = false
is_connected e session (c ∷ cs) =
    let rest = is_connected e session cs in
    not (in_state c.state ClientState.disconnected)
      && same_endpoint e c.remote_endpoint
      && (c.session_id == session)
    || rest

-- The table of clients, the place of the client that the message is for, and the result.
pub record Accepted : Type 0 where
  pub clients : List Client
  pub client : Option ℕ
  pub code : Code

accepted_by : List Client × Result ℕ → Accepted
accepted_by (cs, ok place) = record { clients = cs; client = some place; code = processed }
accepted_by (cs, err e) = record { clients = cs; client = none; code = failed }

module _ (o : NetOrder) (h : Settings) where
  accept_free :
      (alloc_channels alloc_message : Bool)
      → List Client
      → EndPoint
      → Connect
      → Option (ℕ × Client)
      → Run Accepted
  unfolding accepted_by
  accept_free alloc_channels alloc_message cs endpoint m none =
      done (record { clients = cs; client = none; code = discarded })
  accept_free alloc_channels alloc_message cs endpoint m (some (place, c)) =
      if can_allocate o h alloc_channels m.channel_count
      then (let c' = accepting_client o h c endpoint m in
          queue_outgoing_message o alloc_message c'
            (client_message o MessageType.validate_connect 1
              (Body.connecting (validate_body o h c' m)))
            none 0 0
          >>= λ r. done (accepted_by (placed o h cs place (queued_or_destroyed o h place r))))
      else done (record { clients = cs; client = none; code = failed })

  unfoldable pub on_connect :
      (alloc_channels alloc_message : Bool) → List Client → EndPoint → Connect → Run Accepted
  unfolding accept_free
  on_connect alloc_channels alloc_message cs endpoint m =
      if is_connected endpoint m.session_id cs
      then done (record { clients = cs; client = none; code = discarded })
      else accept_free alloc_channels alloc_message cs endpoint m (find_free cs)

-- The client, the host's `reconfigureBandwidth`, the event and the result.
pub record Handled : Type 0 where
  pub client : Client
  pub reconfigure : Bool
  pub event : Option Event
  pub code : Code

abbrev pub handled_by : Notice → Handled
handled_by n = record {
  client = n.client;
  reconfigure = n.reconfigure;
  event = n.event;
  code = if n.failed then failed else processed;
}

abbrev pub smaller_of : ℕ → ℕ → ℕ
smaller_of new old = if ltb new old then new else old

-- `a < MIN ? MIN : a`, then `a > MAX ? MAX : a`.
abbrev clamped_window : ℕ → ℕ
clamped_window w =
    let low = if ltb w min_window_size then min_window_size else w in
    if ltb max_window_size low then max_window_size else low

module _ (o : NetOrder) where
  -- Whether the other side took over what this side asked for.
  unfoldable pub agrees : Client → Connect → Bool
  agrees c m =
      (m.channel_count == length c.channels)
      && (o.ntoh32 m.throttle_interval == c.packet_throttle_interval)
      && (o.ntoh32 m.throttle_acceleration == c.packet_throttle_acceleration)
      && (o.ntoh32 m.throttle_deceleration == c.packet_throttle_deceleration)
      && (m.compression_level == c.compression_level)

  unfoldable pub validated : Client → Connect → Client
  validated c m =
      let d = (dispose_acknowledged_message c 1 255).0 in
      record d {
        remote_client_id = o.ntoh16 m.client_id;
        mtu = smaller_of (clamped_mtu (o.ntoh16 m.mtu)) d.mtu;
        window_size = smaller_of (clamped_window (o.ntoh32 m.window_size)) d.window_size;
        incoming_bandwidth = o.ntoh32 m.incoming_bandwidth;
        outgoing_bandwidth = o.ntoh32 m.outgoing_bandwidth;
      }

  unfoldable pub on_validate_connect : Service → (reconfigure : Bool) → Client → Connect → Handled
  unfolding agrees validated notify_connect
  on_validate_connect s reconfigure c m =
      if not (in_state c.state ClientState.connecting)
      then record { client = c; reconfigure = reconfigure; event = none; code = discarded }
      else if not (agrees c m)
      then record {
        client = record c { state = ClientState.zombie };
        reconfigure = reconfigure;
        event = none;
        code = discarded;
      }
      else handled_by (notify_connect s (validated c m))
