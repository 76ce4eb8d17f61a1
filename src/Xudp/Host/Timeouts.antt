-- ===== src/Xudp/Host/Timeouts.antt =====
-- `_gekkota_xudp_check_for_timeouts` (src/gekkota/gekkota_xudp.c).
use gekkota.Base.{ℕ, ◌*◌, List, [], ◌∷◌, ◌++◌, Bool, u32, leb, ◌==◌}
use gekkota.Base.{◌&&◌, ◌||◌, not, if◌then◌else◌, is_empty}
use gekkota.Xudp.Types.{Client, Outgoing}
use gekkota.Xudp.Clock.{time_compare, time_get_lag, lag_u32, lag_below, is_less}
use gekkota.Xudp.Acknowledge.{in_transit, timeout_of}
use gekkota.Xudp.Host.Notify.{Service, Notice, notify_disconnect}

-- The result 0, or 1 and -1 with what the notification leaves.
pub data Checked : Type 0 where
  no_timeout : Client → Checked
  timed_out : Notice → Checked

unfoldable pub is_due : (now : ℕ) → Outgoing → Bool
is_due now m = not (lag_below (time_get_lag now m.sent_time) m.round_trip_timeout)

unfoldable pub earliest : Outgoing → (old : ℕ) → ℕ
earliest m old = if (old == 0) || is_less (time_compare m.sent_time old) then m.sent_time else old

-- Whether the connection is given up: the client's earliest timeout is not 0.
unfoldable pub is_lost : (now since : ℕ) → Outgoing → Bool
is_lost now since m =
    let lag = lag_u32 (time_get_lag now since) in
    not (since == 0)
    && (leb 30000 lag || leb m.round_trip_timeout_limit m.round_trip_timeout && leb 5000 lag)

abbrev pub doubled : Outgoing → Outgoing
doubled m = record m { round_trip_timeout = u32 (m.round_trip_timeout * 2) }

-- The message goes back to the head of the outgoing messages. When none is kept before it, the next
-- one sets the time to look again.
unfoldable pub requeue : Outgoing → (kept rest : List Outgoing) → Client → Client
requeue m kept rest c = record c {
  reliable_data_in_transit = in_transit c.reliable_data_in_transit m;
  outgoing_reliable_messages = doubled m ∷ c.outgoing_reliable_messages;
  next_timeout = if is_empty kept then timeout_of c.next_timeout rest else c.next_timeout;
}

module _ (s : Service) (reconfigure : Bool) (now : ℕ) where
  unfoldable pub check_messages : (kept : List Outgoing) → List Outgoing → Client → Checked
  unfolding is_due earliest is_lost requeue notify_disconnect
  check_messages kept [] c = no_timeout (record c { sent_reliable_messages = kept })
  check_messages kept (m ∷ rest) c =
      let c' = record c { earliest_timeout = earliest m c.earliest_timeout } in
      let wait = check_messages (kept ++ (m ∷ [])) rest c in
      let again = check_messages kept rest (requeue m kept rest c') in
      if is_due now m
      then if is_lost now c'.earliest_timeout m
        then timed_out (
            notify_disconnect s reconfigure
              (record c' { sent_reliable_messages = kept ++ (m ∷ rest) }))
        else again
      else wait

  unfoldable pub check_for_timeouts : Client → Checked
  unfolding check_messages
  check_for_timeouts c = check_messages [] c.sent_reliable_messages c
