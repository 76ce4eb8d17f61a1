-- ===== src/Xudp/Host/Reaches.antt =====
-- The header that `_gekkota_xudp_send` makes, read by `_gekkota_xudp_get_message_handler_args` of
-- the other host (src/gekkota/gekkota_xudp.c).
use gekkota.Base.{
  ℕ, zero, suc, ◌+◌, ◌/◌, ◌%◌, ◌<◌, ◌≡◌, refl, sym, ap, ◌∙◌, arith, List, [], ◌∷◌, some, Bool, true,
  false, NetOrder, eq→==_true, lt→ltb,
}
use gekkota.Base.{◌*◌, ◌≤◌, ◌++◌, take, if◌then◌else◌, Bool-cases, inl, inr, le→ltb_false, u16}
use gekkota.Base.{done, get_elem?, set, length, drop, u32, ltb, ◌==◌}
use gekkota.Xudp.Types.{Client, EndPoint, is_set}
use gekkota.Xudp.Host.Datagram.{Datagram}
use gekkota.Xudp.Host.Flush.{Call, Header, Transmission, transmission}
use gekkota.Xudp.Host.Wire.{header_bytes, read_header, half_at}
use gekkota.Xudp.Host.Receive.{
  Cursor, Reception, is_gone, behind_header, find_unicast, assign, assign_client, open_header,
  open_datagram, same_address, with_clients,
}

is_set_1-version : (f : ℕ) → is_set (4 + f % 4) 1 ≡ is_set f 1
is_set_1-version f = ground arith

is_set_0-version : (f : ℕ) → is_set (4 + f % 4) 0 ≡ is_set f 0
is_set_0-version f = ground arith

version_known : (f : ℕ) → ltb 1 ((4 + f % 4) / 4) ≡ false
version_known f = ground arith

-- The client of a host that a datagram of `size` bytes is for.
abbrev pub received_by : (size : ℕ) → Client → Client
received_by size p = record p { incoming_data_total = u32 (p.incoming_data_total + size) }

get_elem?-lt : {A : Type 0} (xs : List A) (i : ℕ) (x : A) → get_elem? xs i ≡ some x → i < length xs
get_elem?-lt [] i x h = cc
get_elem?-lt (y ∷ xs) zero x h = omega arith
get_elem?-lt (y ∷ xs) (suc i) x h = omega (arith, get_elem?-lt xs i x h)

same_address-true :
    (sender e : EndPoint) (p : Client)
    → p.remote_endpoint ≡ some e
    → sender.address ≡ e.address
    → same_address sender p ≡ done true
unfolding same_address
same_address-true sender e p peer same = rw (peer, eq→==_true _ _ same) refl

-- The bytes that go to the socket: as many of the header as are sent, and the other buffers.
abbrev pub sent_bytes : (padding : ℕ) → Transmission → (contents : List ℕ) → List ℕ
sent_bytes padding t contents = take t.header_length (header_bytes padding t.header) ++ contents

-- The header that is read: where the time was not sent, the contents stand in its place.
abbrev pub read_back : Transmission → (contents : List ℕ) → Header
read_back t contents = record t.header {
  sent_time = if t.header_length == 12 then t.header.sent_time else half_at contents 0;
}

word_bytes :
    (n : ℕ)
    → n < 4294967296
    → n % 256 + n / 256 % 256 * 256 + (n / 65536 % 256 + n / 16777216 % 256 * 256) * 65536 ≡ n
word_bytes n h = omega arith

half_bytes : (n : ℕ) → n < 65536 → n % 256 + n / 256 % 256 * 256 ≡ n
half_bytes n h = omega arith

module _ (o : NetOrder) (call : Call) (transmit : Transmission → Bool) (c : Client) (d : Datagram)
    (padding : ℕ) (contents : List ℕ) where
  abbrev outgoing : Transmission
  outgoing = transmission o call transmit c d

  module _ (protocol : call.protocol_id < 65536) (session : c.session_id < 4294967296)
      (client : c.remote_client_id < 65535) where
    read_header-sent :
        read_header (sent_bytes padding outgoing contents) ≡ read_back outgoing contents
    unfolding read_header header_bytes transmission
    read_header-sent =
        let name : ℕ = o.hton16 c.remote_client_id in
        let small : name < 65536 = o.hton16-lt c.remote_client_id (omega arith) in
        let version : (4 + d.header_flags % 4) % 256 ≡ 4 + d.header_flags % 4 = omega arith in
        elim (Bool-cases (is_set d.header_flags 0)) [
          | inl e ↦
              rw
                (
                  e,
                  half_bytes _ protocol,
                  word_bytes _ session,
                  half_bytes _ small,
                  half_bytes _ (o.hton16-lt (u16 call.now) (omega arith)),
                  version,
                )
                refl
          | inr e ↦
              rw (e, half_bytes _ protocol, word_bytes _ session, half_bytes _ small, version) refl
        ]

    drop-sent_bytes : drop outgoing.header_length (sent_bytes padding outgoing contents) ≡ contents
    unfolding header_bytes transmission
    drop-sent_bytes = elim (Bool-cases (is_set d.header_flags 0)) [
      | inl e ↦ rw (e) refl
      | inr e ↦ rw (e) refl
    ]

    long_enough :
        2 ≤ length contents → ltb (length (sent_bytes padding outgoing contents)) 12 ≡ false
    unfolding header_bytes transmission
    long_enough two = elim (Bool-cases (is_set d.header_flags 0)) [
      | inl e ↦ rw (e) (le→ltb_false _ 12 (omega arith))
      | inr e ↦ rw (e) (le→ltb_false _ 12 (omega arith))
    ]

module _ (o : NetOrder) (call : Call) (transmit : Transmission → Bool) where
  module _ (c : Client) (d : Datagram) (sender : EndPoint) (bytes : List ℕ) (s : Reception) where
    open_header-sent :
        (p : Client) (e : EndPoint) (time : ℕ)
        → c.remote_client_id < 65535
        → is_set d.header_flags 1 ≡ false
        → get_elem? s.table.clients c.remote_client_id ≡ some p
        → p.session_id ≡ c.session_id
        → is_gone p ≡ false
        → p.remote_endpoint ≡ some e
        → sender.address ≡ e.address
        → open_header o call.protocol_id sender bytes
            (record (transmission o call transmit c d).header { sent_time = time })
            s
          ≡ done (
              some (record s {
                table = record s.table {
                  clients = set s.table.clients c.remote_client_id (received_by (length bytes) p);
                };
                cursor =
                    Cursor.reading
                      (record (transmission o call transmit c d).header { sent_time = time })
                      (some c.remote_client_id)
                      (drop (transmission o call transmit c d).header_length bytes);
              }))
    unfolding open_header assign_client find_unicast assign behind_header with_clients same_address
        transmission
    open_header-sent p e time small flag there session gone peer same =
        let id : o.ntoh16 (o.hton16 c.remote_client_id) ≡ c.remote_client_id =
          o.ntoh16-hton16 c.remote_client_id (omega arith) in
        let nobody : (c.remote_client_id == 65535) ≡ false = ground arith in
        let found : find_unicast o call.protocol_id sender bytes c.remote_client_id s.table.clients
            ≡ done (some (c.remote_client_id, p)) =
          rw (there, gone, same_address-true sender e p peer same) refl in
        rw
          (
            eq→==_true call.protocol_id call.protocol_id refl,
            version_known d.header_flags,
            id,
            nobody,
            is_set_1-version d.header_flags,
            flag,
            lt→ltb _ _ (get_elem?-lt s.table.clients c.remote_client_id p there),
            found,
            eq→==_true _ _ (sym session),
            is_set_0-version d.header_flags,
          )
          refl

open_datagram-header :
    (o : NetOrder) (protocol_id : ℕ) (sender : EndPoint) (bytes : List ℕ) (s : Reception)
    → ltb (length bytes) 12 ≡ false
    → open_datagram o protocol_id sender bytes s
      ≡ open_header o protocol_id sender bytes (read_header bytes) s
unfolding open_datagram
open_datagram-header o protocol_id sender bytes s long = rw (long) refl

-- The bytes of a datagram that is sent without the flag for a multicast group, of which the header
-- is as many bytes of the structure as are sent and the contents are two bytes or more, to the
-- number of a client of the other host that has the same session, is not gone and knows the
-- sender's address: the other host takes them for that client, counts them in its data, reads the
-- header that was sent, its time too where it was sent, and goes on with the contents.
pub transmission-reaches :
    (o : NetOrder) (call : Call) (transmit : Transmission → Bool) (c : Client) (d : Datagram)
    (padding : ℕ) (contents : List ℕ) (sender : EndPoint) (s : Reception) (p : Client)
    (e : EndPoint)
    → call.protocol_id < 65536
    → c.session_id < 4294967296
    → c.remote_client_id < 65535
    → 2 ≤ length contents
    → is_set d.header_flags 1 ≡ false
    → get_elem? s.table.clients c.remote_client_id ≡ some p
    → p.session_id ≡ c.session_id
    → is_gone p ≡ false
    → p.remote_endpoint ≡ some e
    → sender.address ≡ e.address
    → open_datagram o call.protocol_id sender
        (sent_bytes padding (transmission o call transmit c d) contents)
        s
      ≡ done (
          some (record s {
            table = record s.table {
              clients = set s.table.clients c.remote_client_id (
                  received_by
                    (length (sent_bytes padding (transmission o call transmit c d) contents))
                    p);
            };
            cursor =
                Cursor.reading
                  (read_back (transmission o call transmit c d) contents)
                  (some c.remote_client_id)
                  contents;
          }))
transmission-reaches o call transmit c d padding contents sender s p e protocol word small two flag
      there session gone peer same =
    let bytes = sent_bytes padding (transmission o call transmit c d) contents in
    open_datagram-header o call.protocol_id sender bytes s
      (long_enough o call transmit c d padding contents protocol word small two)
    ∙ ap (λ h. open_header o call.protocol_id sender bytes h s)
        (read_header-sent o call transmit c d padding contents protocol word small)
    ∙ open_header-sent o call transmit c d sender bytes s p e
        (read_back (transmission o call transmit c d) contents).sent_time small flag there session
        gone peer same
    ∙ ap
        (λ rest. done (
          some (record s {
            table = record s.table {
              clients = set s.table.clients c.remote_client_id (received_by (length bytes) p);
            };
            cursor =
                Cursor.reading (read_back (transmission o call transmit c d) contents)
                  (some c.remote_client_id) rest;
          })))
        (drop-sent_bytes o call transmit c d padding contents protocol word small)
