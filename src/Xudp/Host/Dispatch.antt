-- ===== src/Xudp/Host/Dispatch.antt =====
-- `_gekkota_xudp_dispatch` (src/gekkota/gekkota_xudp.c). The function `inflate` is as in
-- gekkota_xudpclient_receive, and the Boolean says whether the allocation of an event succeeds.
use gekkota.Base.{
  ℕ, zero, suc, List, [], ◌∷◌, Option, none, some, Bool, true, false, Result, ok, err,
}
use gekkota.Base.{get_elem?, set, length, ltb, is_empty, ◌&&◌, if◌then◌else◌}
use gekkota.Xudp.Types.{Client, Channel, Packet, EndPoint, ClientState}
use gekkota.Xudp.Event.{Event, EventType, event_new}
use gekkota.Xudp.Client.Close.{destroy}
use gekkota.Xudp.Client.Receive.{receive}
use gekkota.Xudp.Host.Accept.{Code, discarded, processed, failed}

-- The host's clients, the place of the client that was serviced last, and `reconfigureBandwidth`.
pub record Table : Type 0 where
  pub clients : List Client
  pub last_serviced : ℕ
  pub reconfigure : Bool

-- What the channels of a client have: nothing, a failure, or a packet on a channel.
pub data Delivery : Type 0 where
  nothing broken : Delivery
  packet_on : (channel_id : ℕ) → Packet → EndPoint → Delivery

-- A client that the loop goes on from, or what it returns: whether the client is now the one that
-- was serviced last, whether the bandwidth is to be configured again, the event and the result.
pub data Visit : Type 0 where
  passes : Visit
  serves : Client → (serviced reconfigures : Bool) → Option Event → Code → Visit

abbrev pub code_of_event : Option Event → Code
code_of_event none = failed
code_of_event (some e) = processed

module _ (inflate : Packet → Result Packet) (alloc : Bool) (host_mtu : ℕ) where
  unfoldable pub by_receive :
      (channel_id : ℕ)
      → Client × Delivery
      → Option Client × Result (Option (Packet × EndPoint))
      → Client × Delivery
  by_receive channel_id rest (none, r) = rest
  by_receive channel_id rest (some c, ok none) = rest
  by_receive channel_id rest (some c, ok (some (p, from))) = (c, packet_on channel_id p from)
  by_receive channel_id rest (some c, err e) = (c, broken)

  -- The first of the channels that has a packet to hand out.
  unfoldable pub deliver : Client → (channel_id : ℕ) → List Channel → Client × Delivery
  unfolding by_receive receive
  deliver c channel_id [] = (c, nothing)
  deliver c channel_id (ch ∷ chs) =
      let rest = deliver c (suc channel_id) chs in
      if is_empty ch.incoming_reliable_messages && is_empty ch.incoming_unreliable_messages
      then rest
      else by_receive channel_id rest (receive inflate (some c) channel_id)

  unfoldable pub delivered_event : (place : ℕ) → Client × Delivery → Visit
  unfolding event_new
  delivered_event place (c, nothing) = passes
  delivered_event place (c, broken) = serves c false false none failed
  delivered_event place (c, packet_on channel_id p from) =
      let e = event_new alloc EventType.receive place channel_id (some p) (some from) in
      elim e [
        | none ↦ serves c false false none failed
        | some x ↦ serves c true false (some x) processed
      ]

  unfoldable pub announce_connect : (place : ℕ) → Client → Visit
  unfolding event_new
  announce_connect place c =
      let e = event_new alloc EventType.connect place 0 none c.remote_endpoint in
      serves (record c { state = ClientState.connected }) false false e (code_of_event e)

  -- The event of a client that was destroyed has no end point.
  unfoldable pub announce_disconnect : (place : ℕ) → Client → Visit
  unfolding event_new destroy
  announce_disconnect place c =
      let d = destroy place host_mtu c in
      let e = event_new alloc EventType.disconnect place 0 none d.remote_endpoint in
      serves d true true e (code_of_event e)

  unfoldable pub visit_in : ClientState → (place : ℕ) → Client → Visit
  unfolding announce_connect announce_disconnect deliver delivered_event
  visit_in ClientState.connection_pending place c = announce_connect place c
  visit_in ClientState.connection_succeeded place c = announce_connect place c
  visit_in ClientState.zombie place c = announce_disconnect place c
  visit_in ClientState.connected place c = delivered_event place (deliver c 0 c.channels)
  visit_in _ place c = passes

  unfoldable pub visit_client : (place : ℕ) → Client → Visit
  unfolding visit_in
  visit_client place c = visit_in c.state place c

  -- The table, the event and the result of a visit, or those of the loop when it goes on.
  unfoldable pub by_visit :
      Table → (place : ℕ) → Visit → Table × Option Event × Code → Table × Option Event × Code
  by_visit t place passes rest = rest
  by_visit t place (serves c serviced reconfigures e code) rest = (
    record {
      clients = set t.clients place c;
      last_serviced = if serviced then place else t.last_serviced;
      reconfigure = if reconfigures then true else t.reconfigure;
    },
    e,
    code,
  )

  abbrev pub next_place : Table → ℕ → ℕ
  next_place t place = if ltb (suc place) (length t.clients) then suc place else 0

  unfoldable pub visit_at : (place : ℕ) → Option Client → Visit
  unfolding visit_client
  visit_at place none = passes
  visit_at place (some c) = visit_client place c

  -- The loop from the client after a place, for a number of clients; it ends at the client that was
  -- serviced last, when it has come to all of them.
  unfoldable pub dispatch_from : Table → (count place : ℕ) → Table × Option Event × Code
  unfolding by_visit visit_at
  dispatch_from t zero place = (t, none, discarded)
  dispatch_from t (suc count) place =
      let here = next_place t place in
      by_visit t here (visit_at here (get_elem? t.clients here)) (dispatch_from t count here)

  unfoldable pub dispatch : Table → Table × Option Event × Code
  unfolding dispatch_from
  dispatch t = dispatch_from t (length t.clients) t.last_serviced
