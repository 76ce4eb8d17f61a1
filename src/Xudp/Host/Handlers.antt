-- ===== src/Xudp/Host/Handlers.antt =====
-- Handlers of messages without data (src/gekkota/gekkota_xudp.c):
-- `_gekkota_xudp_on_acknowledge_message`, `_on_disconnect_message`,
-- `_on_join_multicast_group_message`, `_on_leave_multicast_group_message` and `_on_ping_message`.
use gekkota.Base.{
  ℕ, Option, none, some, Bool, true, false, NetOrder, Run, done, ◌>>=◌, ◌||◌, not, if◌then◌else◌,
}
use gekkota.Base.{is_some}
use gekkota.Xudp.Types.{Client, MessageType, EndPoint, ClientState, in_state, is_set}
use gekkota.Xudp.Event.{EventType, event_new}
use gekkota.Xudp.Timing.{timed}
use gekkota.Xudp.Acknowledge.{dispose_acknowledged_message}
use gekkota.Xudp.Client.Close.{
  Sign, Outcome, finished, close_gracefully, clear_message_queues, destroy, is_idle,
}
use gekkota.Xudp.Host.Notify.{Service, notify_connect, notify_disconnect}
use gekkota.Xudp.Host.Accept.{Code, discarded, processed, failed, Handled, handled_by}

abbrev pub is_validate_connect : MessageType → Bool
is_validate_connect MessageType.validate_connect = true
is_validate_connect _ = false

abbrev pub is_disconnect : MessageType → Bool
is_disconnect MessageType.disconnect = true
is_disconnect _ = false

-- A handler that leaves the host and the event as they are.
abbrev pub plain : (reconfigure : Bool) → Client → Code → Handled
plain reconfigure c code = record {
  client = c;
  reconfigure = reconfigure;
  event = none;
  code = code;
}

closed_by : Bool → Client × Outcome → Handled
closed_by reconfigure (c, finished) = plain reconfigure c processed
closed_by reconfigure (c, Outcome.failed) = plain reconfigure c failed

module _ (o : NetOrder) (s : Service) (reconfigure : Bool) where
  module _ (alloc_message : Bool) (flush : Client → Client × Sign) where
    -- What the message that was acknowledged, by its type, means to a client in a state.
    unfoldable pub on_acknowledged : ClientState → Client → MessageType → Run Handled
    unfolding notify_connect notify_disconnect close_gracefully closed_by
    on_acknowledged ClientState.acknowledging_connect c type = done (
        if is_validate_connect type
        then handled_by (notify_connect s c)
        else plain reconfigure c discarded)
    on_acknowledged ClientState.disconnecting c type = done (
        if is_disconnect type
        then handled_by (notify_disconnect s reconfigure c)
        else plain reconfigure c discarded)
    on_acknowledged ClientState.delaying_disconnect c type =
        if is_idle c
        then (close_gracefully o alloc_message s.place s.host_mtu flush c >>= λ r.
            done (closed_by reconfigure r))
        else done (plain reconfigure c processed)
    on_acknowledged _ c type = done (plain reconfigure c processed)

    acknowledge_timed : (channel_id number : ℕ) → Client → Option Client → Run Handled
    unfolding on_acknowledged dispose_acknowledged_message
    acknowledge_timed channel_id number old none = done (plain reconfigure old processed)
    acknowledge_timed channel_id number old (some c) =
        let r = dispose_acknowledged_message c (o.ntoh16 number) channel_id in
        on_acknowledged c.state r.0 r.1

    unfoldable pub on_acknowledge :
        (now : ℕ) → (channel_id number sent_time : ℕ) → Client → Run Handled
    unfolding acknowledge_timed timed
    on_acknowledge now channel_id number sent_time c =
        acknowledge_timed channel_id number c (timed now (o.ntoh16 sent_time) c)

  unfoldable pub on_disconnect : (flags : ℕ) → Client → Handled
  unfolding clear_message_queues destroy
  on_disconnect flags c =
      let d = clear_message_queues c in
      if in_state c.state ClientState.connection_succeeded
      then plain reconfigure (record d { state = ClientState.zombie }) processed
      else if not (
          in_state c.state ClientState.connected
          || in_state c.state ClientState.delaying_disconnect)
      then plain (if in_state c.state ClientState.connection_pending then true else reconfigure)
          (destroy s.place s.host_mtu d) processed
      else if is_set flags 0
      then plain reconfigure (record d { state = ClientState.acknowledging_disconnect }) processed
      else plain reconfigure (record d { state = ClientState.zombie }) processed

  group_event : EventType → Option EndPoint → Client → Handled
  unfolding event_new
  group_event type sender c =
      if s.wants_event
      then (let e = event_new s.alloc_event type s.place 0 none sender in
          record {
            client = c;
            reconfigure = reconfigure;
            event = e;
            code = if is_some e then processed else failed;
          })
      else plain reconfigure c processed

  -- The event shows the sender of the datagram.
  unfoldable pub on_join_multicast_group : (sender : Option EndPoint) → Client → Handled
  unfolding group_event
  on_join_multicast_group sender c = group_event EventType.join_multicast_group sender c

  unfoldable pub on_leave_multicast_group : (sender : Option EndPoint) → Client → Handled
  unfolding group_event
  on_leave_multicast_group sender c = group_event EventType.leave_multicast_group sender c

  unfoldable pub on_ping : Client → Handled
  on_ping c = plain reconfigure c processed
