-- ===== src/Xudp/Host/Authentic.antt =====
-- For which client `_gekkota_xudp_get_message_handler_args` (src/gekkota/gekkota_xudp.c) takes a
-- datagram.
use gekkota.Base.{
  ℕ, suc, ◌/◌, ◌≡◌, refl, List, [], ◌∷◌, Option, none, some, true, false, Bool-cases, inl, inr,
  NetOrder, ==_true→eq,
}
use gekkota.Base.{
  done, found, ◌>>=◌, Gives, >>=-Gives, get_elem?, set, length, u32, ltb, ◌+◌, ◌==◌, ◌&&◌, not,
  if◌then◌else◌,
}
use gekkota.Xudp.Types.{Client, EndPoint}
use gekkota.Xudp.Host.Progress.{and_true}
use gekkota.Xudp.Host.Flush.{Header}
use gekkota.Xudp.Host.Wire.{read_header}
use gekkota.Xudp.Host.Receive.{
  Cursor, Reception, is_gone, is_multicast, find_member, find_unicast, assign, assign_client,
  open_header, open_datagram, same_address, with_clients,
}

-- A member of the multicast group that a number stands for.
abbrev pub IsMember : (client_id : ℕ) → Client → Type 0
IsMember client_id c = (c.is_multicast_group_member ≡ true) × (c.remote_client_id ≡ client_id)

-- A client that is not gone and whose end point has the sender's address.
abbrev pub IsPeer : EndPoint → Client → Type 0
IsPeer sender c =
    (is_gone c ≡ false)
    × ((e : EndPoint) × (c.remote_endpoint ≡ some e) × (sender.address ≡ e.address))

-- A datagram's client: one at the place in the table that has the header's session, and is what the
-- header's flag and number say. It is there afterwards with more incoming data.
unfoldable pub IsAuthentic :
    NetOrder
    → EndPoint
    → (size : ℕ) → (before after : List Client) → Header
    → (place : ℕ) → Client
    → Type 0
IsAuthentic o sender size before after h place c =
    (get_elem? before place ≡ some c)
    × (h.session_id ≡ c.session_id)
    × (after
        ≡ set before place (record c { incoming_data_total = u32 (c.incoming_data_total + size) }))
    × (if is_multicast h
        then IsMember (o.ntoh16 h.client_id) c
        else ((place ≡ o.ntoh16 h.client_id) × IsPeer sender c))

-- What a datagram with a header is taken for, by the cursor: a client of its, or nobody if the
-- number says so.
unfoldable pub Admits :
    NetOrder → EndPoint → (size : ℕ) → Header → (before after : List Client) → Cursor → Type 0
Admits o sender size k before after Cursor.unread = ⊥
Admits o sender size k before after (Cursor.reading h none rest) =
    (h ≡ k) × (o.ntoh16 h.client_id ≡ 65535) × (after ≡ before)
Admits o sender size k before after (Cursor.reading h (some place) rest) =
    (h ≡ k) × (c : Client) × IsAuthentic o sender size before after h place c

-- A client that was looked for stands at its place in the table and is what a predicate says.
abbrev Located : (Client → Type 0) → List Client → Option (ℕ × Client) → Type 0
Located P cs none = Unit {0}
Located P cs (some (place, c)) = (get_elem? cs place ≡ some c) × P c

Located-∷ :
    (P : Client → Type 0) (c : Client) (cs : List Client) (r : Option (ℕ × Client))
    → Located P cs r
    → Located P (c ∷ cs) (elim r [ none ↦ none | some (i, d) ↦ some (suc i, d) ])
Located-∷ P c cs none h = tt
Located-∷ P c cs (some (place, d)) h = h

find_member-Located :
    (client_id : ℕ) (cs : List Client) → Located (IsMember client_id) cs (find_member client_id cs)
unfolding find_member
find_member-Located client_id [] = tt
find_member-Located client_id (c ∷ cs) =
    elim (Bool-cases (c.is_multicast_group_member && (c.remote_client_id == client_id))) [
      | inl e ↦ let (member, same) = and_true _ _ e in rw (e) (refl, (member, ==_true→eq _ _ same))
      | inr e ↦ rw (e) (Located-∷ (IsMember client_id) c cs _ (find_member-Located client_id cs))
    ]

module _ (o : NetOrder) (protocol_id : ℕ) (sender : EndPoint) (bytes : List ℕ) where
  -- Where a client at an address stands.
  abbrev IsAt : (client_id : ℕ) → List Client → Option (ℕ × Client) → Type 0
  IsAt client_id cs none = Unit {0}
  IsAt client_id cs (some (place, c)) =
      (get_elem? cs place ≡ some c) × (place ≡ client_id) × IsPeer sender c

  at_endpoint_lem :
      (client_id : ℕ) (cs : List Client) (c : Client) (e : Option EndPoint)
      → get_elem? cs client_id ≡ some c
      → is_gone c ≡ false
      → c.remote_endpoint ≡ e
      → Gives (IsAt client_id cs) (
          found e >>= (λ e. done (sender.address == e.address)) >>= λ same.
          done (if same then some (client_id, c) else none))
  at_endpoint_lem client_id cs c none there gone e = tt
  at_endpoint_lem client_id cs c (some f) there gone e =
      elim (Bool-cases (sender.address == f.address)) [
        | inr k ↦ rw (k) tt
        | inl k ↦ rw (k) (there, refl, (gone, (f, e, ==_true→eq _ _ k)))
      ]

  find_unicast_from :
      (client_id : ℕ) (cs : List Client) (c : Option Client)
      → get_elem? cs client_id ≡ c
      → Gives (IsAt client_id cs) (
          found c >>= λ c.
          if is_gone c
          then done none
          else (same_address sender c >>= λ same.
              done (if same then some (client_id, c) else none)))
  unfolding same_address
  find_unicast_from client_id cs none there = tt
  find_unicast_from client_id cs (some c) there = elim (Bool-cases (is_gone c)) [
    | inl e ↦ rw (e) tt
    | inr e ↦ rw (e) (at_endpoint_lem client_id cs c c.remote_endpoint there e refl)
  ]

  find_unicast-IsAt :
      (client_id : ℕ) (cs : List Client)
      → Gives (IsAt client_id cs) (find_unicast o protocol_id sender bytes client_id cs)
  unfolding find_unicast
  find_unicast-IsAt client_id cs = find_unicast_from client_id cs (get_elem? cs client_id) refl

  -- What the first call makes of a datagram; `none` is the result 0.
  unfoldable pub Assigns : Header → List Client → Option Reception → Type 0
  unfolding Admits
  Assigns k cs none = Unit {0}
  Assigns k cs (some s) = Admits o sender (length bytes) k cs s.table.clients s.cursor

  -- What the header's flag and number say of the client of the number.
  abbrev Names : Header → List Client → Option (ℕ × Client) → Type 0
  Names h cs none = Unit {0}
  Names h cs (some (place, c)) =
      (get_elem? cs place ≡ some c)
      × (if is_multicast h
          then IsMember (o.ntoh16 h.client_id) c
          else ((place ≡ o.ntoh16 h.client_id) × IsPeer sender c))

  assign-Assigns :
      (h : Header) (s : Reception) (r : Option (ℕ × Client))
      → Names h s.table.clients r
      → Assigns h s.table.clients (assign o protocol_id sender bytes h s r)
  unfolding assign Assigns Admits IsAuthentic with_clients
  assign-Assigns h s none n = tt
  assign-Assigns h s (some (place, c)) n = elim (Bool-cases (h.session_id == c.session_id)) [
    | inr e ↦ rw (e) tt
    | inl e ↦ rw (e) (refl, c, (n.0, ==_true→eq _ _ e, refl, n.1))
  ]

  multicast-Names :
      (h : Header) (cs : List Client) (r : Option (ℕ × Client))
      → is_multicast h ≡ true
      → Located (IsMember (o.ntoh16 h.client_id)) cs r
      → Names h cs r
  multicast-Names h cs none e l = tt
  multicast-Names h cs (some (place, c)) e l = (l.0, rw (e) l.1)

  unicast-Names :
      (h : Header) (cs : List Client) (r : Option (ℕ × Client))
      → is_multicast h ≡ false
      → IsAt (o.ntoh16 h.client_id) cs r
      → Names h cs r
  unicast-Names h cs none e l = tt
  unicast-Names h cs (some (place, c)) e l = (l.0, rw (e) (l.1, l.2))

  assign_client-Assigns :
      (h : Header) (s : Reception)
      → Gives
          (Assigns h s.table.clients)
          (assign_client o protocol_id sender bytes h (o.ntoh16 h.client_id) s)
  unfolding assign_client Assigns Admits
  assign_client-Assigns h s =
      let id = o.ntoh16 h.client_id in
      elim (Bool-cases ((id == 65535) && not (is_multicast h))) [
        | inl e ↦ rw (e) (refl, ==_true→eq _ _ (and_true (id == 65535) _ e).0, refl)
        | inr e ↦ elim (Bool-cases (is_multicast h)) [
          | inl k ↦
              rw (e, k)
                (assign-Assigns h s (find_member id s.table.clients)
                  (multicast-Names h s.table.clients _ k (find_member-Located id s.table.clients)))
          | inr k ↦ elim (Bool-cases (ltb id (length s.table.clients))) [
            | inr l ↦ rw (e, k, l) tt
            | inl l ↦
                rw (e, k, l)
                  (>>=-Gives (IsAt id s.table.clients) (Assigns h s.table.clients)
                    (find_unicast o protocol_id sender bytes id s.table.clients)
                    (λ r. done (assign o protocol_id sender bytes h s r))
                    (find_unicast-IsAt id s.table.clients)
                    (λ r a. assign-Assigns h s r (unicast-Names h s.table.clients r k a)))
          ]
        ]
      ]

  open_header-Assigns :
      (h : Header) (s : Reception)
      → Gives (Assigns h s.table.clients) (open_header o protocol_id sender bytes h s)
  unfolding open_header Assigns
  open_header-Assigns h s = elim (Bool-cases (h.protocol_id == protocol_id)) [
    | inr e ↦ rw (e) tt
    | inl e ↦ elim (Bool-cases (ltb 1 (h.version / 4))) [
      | inl k ↦ rw (e, k) tt
      | inr k ↦ rw (e, k) (assign_client-Assigns h s)
    ]
  ]

  -- When the first call returns, it takes a datagram for a client only if the client stands in the
  -- table, has the session of the datagram's header and, by the header's flag, is a member of the
  -- multicast group of the header's number, or stands at that number, is not gone and has the
  -- sender's address; or it takes it for nobody, and then the number is 65535. The client's incoming
  -- data grow by the datagram's size, and the other clients stay as they were.
  pub open_datagram-Assigns :
      (s : Reception)
      → Gives
          (Assigns (read_header bytes) s.table.clients)
          (open_datagram o protocol_id sender bytes s)
  unfolding open_datagram Assigns
  open_datagram-Assigns s = elim (Bool-cases (ltb (length bytes) 12)) [
    | inl e ↦ rw (e) tt
    | inr e ↦ rw (e) (open_header-Assigns (read_header bytes) s)
  ]
