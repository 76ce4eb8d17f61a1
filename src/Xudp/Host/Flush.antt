-- ===== src/Xudp/Host/Flush.antt =====
-- `_gekkota_xudp_send` (src/gekkota/gekkota_xudp.c), built without CRC32_ENABLED, with
-- `_gekkota_xudp_send_unreliable` as a whole. The function `transmit` stands for
-- `gekkota_socket_send`: it says whether its result is not negative. Closing a member of a multicast
-- group flushes the host, and so calls `_gekkota_xudp_send` again, inside of its own round: `leave`
-- stands for that, and what else the flush changes or transmits is not part of the turn.
use gekkota.Base.{
  ℕ, zero, suc, ◌+◌, ◌%◌, List, [], ◌∷◌, ◌++◌, Option, none, some, Bool, true, false, NetOrder,
}
use gekkota.Base.{
  Run, done, fault, stuck, ◌>>=◌, u16, is_empty, leb, ◌&&◌, ◌||◌, not, if◌then◌else◌,
}
use gekkota.Xudp.Types.{Client, Outgoing, Packet, EndPoint, ClientState, in_state, is_set}
use gekkota.Xudp.Clock.{time_compare, time_get_lag, lag_below, is_less}
use gekkota.Xudp.Event.{Event}
use gekkota.Xudp.Client.Outgoing.{ping}
use gekkota.Xudp.Client.Close.{nought, Outcome, finished, close_gracefully, is_idle}
use gekkota.Xudp.Host.Datagram.{Datagram, Piece, empty_datagram, room}
use gekkota.Xudp.Host.Sending.{Filled, send_acknowledgements, send_reliable, fill_unreliable}
use gekkota.Xudp.Host.Notify.{Service}
use gekkota.Xudp.Host.Timeouts.{Checked, no_timeout, timed_out, check_for_timeouts}

pub record Header : Type 0 where
  pub protocol_id : ℕ
  pub version : ℕ
  pub session_id : ℕ
  pub client_id : ℕ
  pub sent_time : ℕ

-- What goes to the socket: the header, how many bytes of it, the other buffers, and where to.
pub record Transmission : Type 0 where
  pub header : Header
  pub header_length : ℕ
  pub buffers : List Piece
  pub endpoint : Option EndPoint

-- The client after its turn, `send`, and what was transmitted; or an early end, with the result 1
-- for a connection that timed out and -1 for a failure.
pub data Turn : Type 0 where
  goes_on : Client → (send : Bool) → List Transmission → Turn
  ends : Client → (reconfigure : Bool) → Option Event → (failure : Bool) → Turn

-- What the call of `_gekkota_xudp_send` fixes; `keeps` says whether the program has a reference of
-- its own to a packet, so that the packet stays when the last message with it goes.
pub record Call : Type 0 where
  pub now : ℕ
  pub protocol_id : ℕ
  pub check : Bool
  pub alloc_ping : Bool
  pub keeps : Packet → Bool

-- `_gekkota_xudpclient_close_gracefully` of a member of a multicast group, while the host fills a
-- datagram: the client and the host's datagram that it leaves, and the sign of its result, if it
-- returns. The flush may come to the same client again, and so on without end.
abbrev pub Leave : Type 0
Leave = Client → Datagram → Run (Client × Datagram × Outcome)

-- The client that a ping leaves, where there is one.
unfoldable pub pinged : Option Client → Client → Client
pinged none c = c
pinged (some d) c = d

module _ (o : NetOrder) (call : Call) (transmit : Transmission → Bool) where
  unfoldable pub transmission : Client → Datagram → Transmission
  transmission c d = record {
    header = record {
      protocol_id = call.protocol_id;
      version = 4 + d.header_flags % 4;
      session_id = c.session_id;
      client_id = o.hton16 c.remote_client_id;
      sent_time = if is_set d.header_flags 0 then o.hton16 (u16 call.now) else 0;
    };
    header_length = if is_set d.header_flags 0 then 12 else 10;
    buffers = d.buffers;
    endpoint = c.remote_endpoint;
  }

  -- The datagram goes out if it has a message.
  unfoldable pub transmitted : (reconfigure send : Bool) → Client → Datagram → Turn
  unfolding transmission
  transmitted reconfigure send c d =
      let t = transmission c d in
      let c' = record c { sent_unreliable_messages = [] } in
      if is_empty d.messages
      then goes_on c send []
      else if transmit t
      then goes_on c' send (t ∷ [])
      else ends c' reconfigure none true

  -- A message has a packet that its disposal gives back.
  unfoldable pub gives_back : List Outgoing → Bool
  gives_back [] = false
  gives_back (m ∷ ms) =
      let rest = gives_back ms in
      elim m.packet [ none ↦ rest | some p ↦ not (call.keeps p) || rest ]

  module _ (s : Service) (reconfigure : Bool) (leave : Leave) where
    -- When the client has closed, the datagram still goes out; `gone` says that bytes of its buffers
    -- were given back, which the socket then reads: a fault.
    unfoldable pub closed_idle : (gone more : Bool) → Client × Datagram × Outcome → Run Turn
    unfolding transmitted
    closed_idle gone more (c, d, finished) =
        if gone then fault else done (transmitted reconfigure more c d)
    closed_idle gone more (c, d, Outcome.failed) = done (ends c reconfigure none true)

    -- A client that waits to disconnect is open, and closing one that is no member does not flush.
    unfoldable pub close_idle : Filled → Run Turn
    unfolding close_gracefully closed_idle gives_back
    close_idle f =
        if f.client.is_multicast_group_member
        then (leave f.client f.datagram >>= closed_idle false f.more)
        else (close_gracefully o call.alloc_ping s.place s.host_mtu (λ c. (c, nought)) f.client
            >>= λ r.
                closed_idle (gives_back f.client.sent_unreliable_messages) f.more
                  (r.0, f.datagram, r.1))

    -- The end of `_gekkota_xudp_send_unreliable`: a client that waited to disconnect does so.
    unfoldable pub after_unreliable : Filled → Run Turn
    unfolding close_idle transmitted
    after_unreliable f =
        if in_state f.client.state ClientState.delaying_disconnect && is_idle f.client
        then close_idle f
        else done (transmitted reconfigure f.more f.client f.datagram)

    unfoldable pub unreliable_turn : (send : Bool) → Client → Datagram → Run Turn
    unfolding after_unreliable transmitted fill_unreliable
    unreliable_turn send c d =
        if is_empty c.outgoing_unreliable_messages
        then done (transmitted reconfigure send c d)
        else after_unreliable (fill_unreliable c.outgoing_unreliable_messages c d)

    -- The ping follows only messages that did not go, since the `else` belongs to the inner `if`.
    unfoldable pub wants_ping : Client → Datagram → Bool
    unfolding room time_get_lag
    wants_ping c d =
        is_empty c.sent_reliable_messages
        && not (lag_below (time_get_lag call.now c.last_receive_time) 500)
        && leb 6 (room c.mtu d)

    unfoldable pub reliable_turn : (send : Bool) → Client → Datagram → Run Turn
    unfolding unreliable_turn wants_ping pinged send_reliable ping
    reliable_turn send c d =
        if is_empty c.outgoing_reliable_messages
        then unreliable_turn send c d
        else (let f = send_reliable call.now c d in
            if wants_ping f.client f.datagram
            then (ping o call.alloc_ping (some f.client) >>= λ r.
                let g = send_reliable call.now (pinged r.0 f.client) f.datagram in
                unreliable_turn g.more g.client g.datagram)
            else unreliable_turn f.more f.client f.datagram)

    unfoldable pub after_check : (send : Bool) → Datagram → Checked → Run Turn
    unfolding reliable_turn
    after_check send d (no_timeout c) = reliable_turn send c d
    after_check send d (timed_out n) = done (ends n.client n.reconfigure n.event n.failed)

    unfoldable pub timeout_turn : (send : Bool) → Client → Datagram → Run Turn
    unfolding after_check reliable_turn check_for_timeouts time_compare
    timeout_turn send c d =
        if call.check
          && not (is_empty c.sent_reliable_messages)
          && not (is_less (time_compare call.now c.next_timeout))
        then after_check send d (check_for_timeouts s reconfigure call.now c)
        else reliable_turn send c d

    -- One client's turn in a round.
    unfoldable pub client_turn : (send : Bool) → Client → Run Turn
    unfolding timeout_turn send_acknowledgements
    client_turn send c =
        if in_state c.state ClientState.disconnected || in_state c.state ClientState.zombie
        then done (goes_on c send [])
        else (let d = empty_datagram (if c.is_multicast_group_member then 2 else 0) in
            if is_empty c.acknowledgements
            then timeout_turn send c d
            else (let f = send_acknowledgements o c d in timeout_turn f.more f.client f.datagram))

-- A round over the clients: those after it, `send`, what was transmitted, and how it ended early.
pub record Round : Type 0 where
  pub clients : List Client
  pub send : Bool
  pub transmissions : List Transmission
  pub reconfigure : Bool
  pub ended : Option (Option Event × Bool)

module _ (o : NetOrder) (call : Call) (transmit : Transmission → Bool) (s : Service)
    (leave : Leave) where
  joined_round : Client → List Transmission → Round → Round
  joined_round c ts r = record r { clients = c ∷ r.clients; transmissions = ts ++ r.transmissions }

  by_turn : (reconfigure : Bool) → List Client → (Bool → Run Round) → Turn → Run Round
  unfolding joined_round
  by_turn reconfigure cs rest (goes_on c send ts) = rest send >>= λ r. done (joined_round c ts r)
  by_turn reconfigure cs rest (ends c reconfigure' event failure) = done (record {
    clients = c ∷ cs;
    send = false;
    transmissions = [];
    reconfigure = reconfigure';
    ended = some (event, failure);
  })

  unfoldable pub round :
      (reconfigure : Bool) → (place : ℕ) → (send : Bool) → List Client → Run Round
  unfolding by_turn client_turn
  round reconfigure place send [] = done (record {
    clients = [];
    send = send;
    transmissions = [];
    reconfigure = reconfigure;
    ended = none;
  })
  round reconfigure place send (c ∷ cs) =
      client_turn o call transmit (record s { place = place }) reconfigure leave send c
      >>= by_turn reconfigure cs (λ send'. round reconfigure (suc place) send' cs)

  added_to : List Transmission → Round → Round
  added_to ts r = record r { transmissions = ts ++ r.transmissions }

  -- `while (send)`, on fuel: another round as long as the last one left something to send.
  unfoldable pub rounds : (fuel : ℕ) → (reconfigure : Bool) → List Client → Run Round
  unfolding round added_to
  rounds zero reconfigure cs = stuck
  rounds (suc fuel) reconfigure cs = round reconfigure 0 false cs >>= λ r.
      let again = λ (t : Unit {0}). rounds fuel reconfigure r.clients in
      if r.send then (again tt >>= λ q. done (added_to r.transmissions q)) else done r
