-- ===== src/Xudp/Host/Receive.antt =====
-- `_gekkota_xudp_get_message_handler_args` (src/gekkota/gekkota_xudp.c), built without
-- CRC32_ENABLED: the next message of a datagram.
use gekkota.Base.{ℕ, suc, ◌+◌, ◌/◌, List, [], ◌∷◌, Option, none, some, Bool, true, false, NetOrder}
use gekkota.Base.{
  Run, done, fault, ◌>>=◌, found, get_elem?, set, length, drop, u32, ltb, leb, ◌==◌, ◌&&◌, ◌||◌,
  not, if◌then◌else◌,
}
use gekkota.Xudp.Types.{
  Client, Message, MessageType, EndPoint, ClientState, in_state, is_set, message_size,
}
use gekkota.Xudp.Event.{Event}
use gekkota.Xudp.Host.Dispatch.{Table}
use gekkota.Xudp.Host.Flush.{Header}
use gekkota.Xudp.Host.Wire.{read_header, byte_at, type_of, message_at}

-- `GekkotaXudpMessageHandlerArgs`: the pointers are NULL before the first call; then there are the
-- header, the place of the client, if there is one, and the datagram's bytes from `data` on.
pub data Cursor : Type 0 where
  unread : Cursor
  reading : Header → (client : Option ℕ) → (rest : List ℕ) → Cursor

-- The host while it works through a datagram.
pub record Reception : Type 0 where
  pub table : Table
  pub event : Option Event
  pub cursor : Cursor

-- The first client that is a member of the multicast group of the number.
unfoldable pub find_member : (client_id : ℕ) → List Client → Option (ℕ × Client)
find_member client_id [] = none
find_member client_id (c ∷ cs) =
    let rest = find_member client_id cs in
    if c.is_multicast_group_member && (c.remote_client_id == client_id)
    then some (0, c)
    else elim rest [ none ↦ none | some (i, d) ↦ some (suc i, d) ]

abbrev pub is_multicast : Header → Bool
is_multicast h = is_set h.version 1

-- The bytes of the datagram behind its header.
unfoldable pub behind_header : Header → List ℕ → List ℕ
behind_header h bytes = drop (if is_set h.version 0 then 12 else 10) bytes

-- Whether the address of the sender is the client's; its end point must not be NULL.
unfoldable pub same_address : EndPoint → Client → Run Bool
same_address sender c = found c.remote_endpoint >>= λ e. done (sender.address == e.address)

abbrev pub is_gone : Client → Bool
is_gone c = in_state c.state ClientState.disconnected || in_state c.state ClientState.zombie

unfoldable pub with_clients : Reception → List Client → Reception
with_clients s cs = record s { table = record s.table { clients = cs } }

module _ (o : NetOrder) (protocol_id : ℕ) (sender : EndPoint) (bytes : List ℕ) where
  -- The client that the datagram is for has its session.
  unfoldable pub assign : Header → Reception → Option (ℕ × Client) → Option Reception
  unfolding behind_header with_clients
  assign h s none = none
  assign h s (some (place, c)) =
      if not (h.session_id == c.session_id)
      then none
      else some
          (record (with_clients s (
            set s.table.clients place
              (record c { incoming_data_total = u32 (c.incoming_data_total + length bytes) }))) {
                cursor = reading h (some place) (behind_header h bytes);
              })

  -- The connected client of the number, at the address that the datagram is from.
  unfoldable pub find_unicast : (client_id : ℕ) → List Client → Run (Option (ℕ × Client))
  unfolding same_address
  find_unicast client_id cs = found (get_elem? cs client_id) >>= λ c.
      if is_gone c
      then done none
      else (same_address sender c >>= λ same. done (if same then some (client_id, c) else none))

  unfoldable pub assign_client : Header → (client_id : ℕ) → Reception → Run (Option Reception)
  unfolding assign find_unicast find_member behind_header
  assign_client h client_id s =
      if (client_id == 65535) && not (is_multicast h)
      then done (some (record s { cursor = reading h none (behind_header h bytes) }))
      else if is_multicast h
      then done (assign h s (find_member client_id s.table.clients))
      else if ltb client_id (length s.table.clients)
      then (find_unicast client_id s.table.clients >>= λ r. done (assign h s r))
      else done none

  -- The first call; `none` is the result 0.
  unfoldable pub open_header : Header → Reception → Run (Option Reception)
  unfolding assign_client
  open_header h s =
      if not (h.protocol_id == protocol_id)
      then done none
      else if ltb 1 (h.version / 4)
      then done none
      else assign_client h (o.ntoh16 h.client_id) s

  unfoldable pub open_datagram : Reception → Run (Option Reception)
  unfolding open_header read_header
  open_datagram s = if ltb (length bytes) 12 then done none else open_header (read_header bytes) s

  -- `messageSizes` has 14 entries; `sizeof(messageSizes) / sizeof(0)` is 28.
  unfoldable pub sized_message :
      Reception
      → Header
      → (client : Option ℕ) → (rest : List ℕ) → Option MessageType
      → Run (Reception × Option Message)
  unfolding message_at
  sized_message s h client rest none = fault
  sized_message s h client rest (some type) =
      if ltb (length rest) (message_size type)
      then done (s, none)
      else done (
        record s { cursor = reading h client (drop (message_size type) rest) },
        some (message_at o.ntoh16 type rest),
      )

  abbrev pub is_nobody : Option ℕ → Bool
  is_nobody none = true
  is_nobody (some place) = false

  unfoldable pub next_message : Reception → Cursor → Run (Reception × Option Message)
  unfolding sized_message type_of
  next_message s unread = fault
  next_message s (reading h client rest) =
      let type = byte_at rest 0 in
      if ltb (length rest) 6
      then done (s, none)
      else if (type == 0) || leb 28 type
      then done (s, none)
      else if is_nobody client && not (type == 2)
      then done (s, none)
      else sized_message s h client rest (type_of type)

  unfoldable pub opened : Reception → Option Reception → Run (Reception × Option Message)
  unfolding next_message
  opened s none = done (s, none)
  opened s (some s') = next_message s' s'.cursor

  unfoldable pub get_at : Reception → Cursor → Run (Reception × Option Message)
  unfolding next_message opened open_datagram
  get_at s unread = open_datagram s >>= opened s
  get_at s (reading h client rest) = next_message s (reading h client rest)

  -- What the call leaves behind, and the message, or `none` for the result 0.
  unfoldable pub get_message_handler_args : Reception → Run (Reception × Option Message)
  unfolding get_at
  get_message_handler_args s = get_at s s.cursor
