-- ===== src/Xudp/Host/Messages.antt =====
-- The table `messageHandlers` and the loop over the messages of a datagram in
-- `_gekkota_xudp_receive` (src/gekkota/gekkota_xudp.c).
use gekkota.Base.{ℕ, zero, suc, ◌+◌, ◌-◌, List, Option, none, some, Bool, true, false, NetOrder}
use gekkota.Base.{
  Run, done, fault, stuck, ◌>>=◌, found, get_elem?, set, length, is_empty, if◌then◌else◌,
}
use gekkota.Xudp.Types.{Client, Message, MessageType, Body}
use gekkota.Xudp.Event.{Event}
use gekkota.Xudp.Window.{on_configure_bandwidth, on_configure_throttle}
use gekkota.Xudp.Acknowledge.{Acknowledged, acknowledge}
use gekkota.Xudp.Client.Outgoing.{Allocated}
use gekkota.Xudp.Client.Close.{Sign}
use gekkota.Xudp.Host.Notify.{Service}
use gekkota.Xudp.Host.Connect.{Settings}
use gekkota.Xudp.Host.Accept.{
  Code, discarded, processed, failed, Accepted, Handled, on_connect, on_validate_connect,
}
use gekkota.Xudp.Host.Handlers.{
  on_acknowledge, on_disconnect, on_join_multicast_group, on_leave_multicast_group, on_ping, plain,
}
use gekkota.Xudp.Host.Data.{
  Receipt, Arrived, on_reliable_data, on_unreliable_data, on_unsequenced_data,
}
use gekkota.Xudp.Host.Fragments.{on_data_fragment}
use gekkota.Xudp.Host.Flush.{Header}
use gekkota.Xudp.Host.Receive.{Cursor, Reception, get_message_handler_args}

-- What a call of the loop is given: the host's settings and the time, whether the caller asks for
-- an event, which allocations succeed, what flushing does, and where the datagram stands in memory.
pub record World : Type 0 where
  pub settings : Settings
  pub protocol_id : ℕ
  pub now : ℕ
  pub wants_event : Bool
  pub alloc_event : Bool
  pub alloc_channels : Bool
  pub alloc_acknowledgement : Allocated
  pub flush_host : Client → Client × Sign
  pub receipt : Receipt

-- The event of the call: a handler's, or the one there was, which is not destroyed before.
newer : Option Event → Option Event → Option Event
newer none old = old
newer (some e) old = some e

module _ (o : NetOrder) (w : World) (bytes : List ℕ) where
  abbrev pub service : (place : ℕ) → Service
  service place = record {
    place = place;
    host_mtu = w.settings.host_mtu;
    wants_event = w.wants_event;
    alloc_event = w.alloc_event;
  }

  -- The data behind a message stand where the datagram does, behind what was read.
  abbrev pub receipt_at : (rest : List ℕ) → Receipt
  receipt_at rest = record w.receipt { address = w.receipt.address + (length bytes - length rest) }

  unfoldable pub with_handled : Reception → (place : ℕ) → Handled → Reception × Code
  unfolding newer
  with_handled s place r = (
    record s {
      table = record s.table {
        clients = set s.table.clients place r.client;
        reconfigure = r.reconfigure;
      };
      event = newer r.event s.event;
    },
    r.code,
  )

  unfoldable pub with_arrived : Reception → Header → (place : ℕ) → Arrived → Reception × Code
  with_arrived s h place r = (
    record s {
      table = record s.table { clients = set s.table.clients place r.client };
      cursor = Cursor.reading h (some place) r.rest;
    },
    r.code,
  )

  -- A new connection sets the client; it is NULL or as it was when there is none.
  unfoldable pub with_accepted :
      Reception → Header → (client : Option ℕ) → List ℕ → Accepted → Reception × Code
  with_accepted s h client rest r = (
    record s {
      table = record s.table { clients = r.clients };
      cursor = Cursor.reading h (elim r.client [ none ↦ client | some p ↦ some p ]) rest;
    },
    r.code,
  )

  -- The handlers of the messages of a client, by the body that they read.
  module _ (s : Reception) (h : Header) (place : ℕ) (c : Client) (m : Message) (rest : List ℕ) where
    unfoldable pub handled : Handled → Run (Reception × Code)
    unfolding with_handled
    handled r = done (with_handled s place r)

    unfoldable pub arrived : Run Arrived → Run (Reception × Code)
    unfolding with_arrived
    arrived r = r >>= λ a. done (with_arrived s h place a)

    unfoldable pub by_body : MessageType → Body → Run (Reception × Code)
    unfolding handled arrived on_acknowledge on_validate_connect on_reliable_data on_unreliable_data
        on_unsequenced_data on_data_fragment on_configure_bandwidth on_configure_throttle
    by_body MessageType.acknowledge (Body.acknowledged number sent_time) =
        on_acknowledge o (service place) s.table.reconfigure w.receipt.alloc_message w.flush_host
          w.now m.channel_id number sent_time c
        >>= handled
    by_body MessageType.validate_connect (Body.connecting k) =
        handled (on_validate_connect o (service place) s.table.reconfigure c k)
    by_body MessageType.reliable_data (Body.reliable len) =
        arrived (on_reliable_data o (receipt_at rest) c m len rest)
    by_body MessageType.unreliable_data (Body.unreliable number len) =
        arrived (on_unreliable_data o (receipt_at rest) c m len rest)
    by_body MessageType.unsequenced_data (Body.unsequenced group len) =
        arrived (on_unsequenced_data o (receipt_at rest) c m group len rest)
    by_body MessageType.data_fragment (Body.fragment f) =
        arrived (on_data_fragment o (receipt_at rest) c m f rest)
    by_body MessageType.configure_bandwidth (Body.bandwidth incoming outgoing) = handled (
        plain s.table.reconfigure
          (on_configure_bandwidth o w.settings.outgoing_bandwidth incoming outgoing c) processed)
    by_body MessageType.configure_throttle (Body.throttling interval acceleration deceleration) =
        handled (
          plain s.table.reconfigure (on_configure_throttle o interval acceleration deceleration c)
            processed)
    by_body type body = fault

    unfoldable pub by_type : MessageType → Run (Reception × Code)
    unfolding handled by_body on_disconnect on_join_multicast_group on_leave_multicast_group on_ping
    by_type MessageType.disconnect =
        handled (on_disconnect o (service place) s.table.reconfigure m.flags c)
    by_type MessageType.join_multicast_group =
        handled
          (on_join_multicast_group o (service place) s.table.reconfigure (some w.receipt.sender) c)
    by_type MessageType.leave_multicast_group =
        handled
          (on_leave_multicast_group o (service place) s.table.reconfigure (some w.receipt.sender) c)
    by_type MessageType.ping = handled (on_ping o (service place) s.table.reconfigure c)
    by_type type = by_body type m.body

  unfoldable pub accepted :
      Reception → Header → (client : Option ℕ) → List ℕ → Body → Run (Reception × Code)
  unfolding on_connect with_accepted
  accepted s h client rest (Body.connecting k) =
      on_connect o w.settings w.alloc_channels w.receipt.alloc_message s.table.clients
        w.receipt.sender k
      >>= λ r. done (with_accepted s h client rest r)
  accepted s h client rest body = fault

  unfoldable pub to_client :
      Reception → Header → Option ℕ → Message → List ℕ → Run (Reception × Code)
  unfolding by_type
  to_client s h none m rest = fault
  to_client s h (some place) m rest =
      found (get_elem? s.table.clients place) >>= λ c. by_type s h place c m rest m.message_type

  -- A CONNECT message makes a new client, whatever the client of the datagram.
  unfoldable pub handle_at :
      Reception → Header → Option ℕ → List ℕ → Message → MessageType → Run (Reception × Code)
  unfolding accepted to_client
  handle_at s h client rest m MessageType.connect = accepted s h client rest m.body
  handle_at s h client rest m type = to_client s h client m rest

  unfoldable pub handle : Reception → Cursor → Message → Run (Reception × Code)
  unfolding handle_at
  handle s Cursor.unread m = fault
  handle s (Cursor.reading h client rest) m = handle_at s h client rest m m.message_type

  unfoldable pub acknowledged_in :
      Reception → (place : ℕ) → Client × Acknowledged → Reception × Bool
  acknowledged_in s place (c, Acknowledged.failed) =
      (record s { table = record s.table { clients = set s.table.clients place c } }, false)
  acknowledged_in s place (c, a) =
      (record s { table = record s.table { clients = set s.table.clients place c } }, true)

  unfoldable pub acknowledge_at : Reception → Cursor → Message → Run (Reception × Bool)
  unfolding acknowledge acknowledged_in
  acknowledge_at s (Cursor.reading h (some place) rest) m =
      found (get_elem? s.table.clients place) >>= λ c.
      done
        (acknowledged_in s place (acknowledge o w.alloc_acknowledgement h.version h.sent_time c m))
  acknowledge_at s cursor m = fault

  unfoldable pub after_handler : Message → Reception × Code → Run (Reception × Bool)
  unfolding acknowledge_at
  after_handler m (s, failed) = done (s, false)
  after_handler m (s, discarded) = done (s, true)
  after_handler m (s, processed) = acknowledge_at s s.cursor m

  unfoldable pub by_message : Reception × Option Message → Run (Reception × Bool)
  unfolding handle after_handler
  by_message (s, none) = done (s, true)
  by_message (s, some m) = handle s s.cursor m >>= after_handler m

  -- A round of the loop, and whether it goes on; it does not on a failure.
  unfoldable pub next_round : Reception → Run (Reception × Bool)
  unfolding by_message get_message_handler_args
  next_round s = get_message_handler_args o w.protocol_id w.receipt.sender bytes s >>= by_message

  -- Whether `data` is at the end of the datagram; NULL is before it.
  abbrev pub is_read : Cursor → Bool
  is_read Cursor.unread = false
  is_read (Cursor.reading h client rest) = is_empty rest

  -- The loop, and whether it comes to the end of the datagram without a failure.
  unfoldable pub read_messages : (fuel : ℕ) → Reception → Run (Reception × Bool)
  unfolding next_round
  read_messages zero s = stuck
  read_messages (suc fuel) s =
      let rest =
        next_round s
        >>= (λ r. elim r.1 [ false ↦ done (r.0, false) | true ↦ read_messages fuel r.0 ]) in
      if is_read s.cursor then done (s, true) else rest
