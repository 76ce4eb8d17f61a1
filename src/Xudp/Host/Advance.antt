-- ===== src/Xudp/Host/Advance.antt =====
-- How far `_gekkota_xudp_get_message_handler_args` and the handlers get in a datagram
-- (src/gekkota/gekkota_xudp.c).
use gekkota.Base.{
  ℕ, zero, suc, ◌<◌, ◌≤◌, ◌/◌, ◌≡◌, ◌⊎◌, inl, inr, refl, arith, List, [], ◌∷◌, Option, none, some,
  false, Bool-cases, NetOrder,
}
use gekkota.Base.{
  done, Gives, >>=-Gives, Gives-map, Gives-any, get_elem?, length, drop, ltb, leb, ◌==◌, ◌&&◌, ◌||◌,
  not,
}
use gekkota.Xudp.Types.{Client, Message, MessageType, EndPoint, message_size}
use gekkota.Xudp.Host.Flush.{Header}
use gekkota.Xudp.Host.Wire.{read_header, byte_at, type_of, message_types}
use gekkota.Xudp.Host.Receive.{
  Cursor, Reception, is_multicast, behind_header, find_member, find_unicast, assign, assign_client,
  open_header, open_datagram, sized_message, is_nobody, next_message, opened, get_at,
  get_message_handler_args,
}
use gekkota.Xudp.Host.Progress.{or_false}
use gekkota.Xudp.Host.Rest.{length-drop_le}

-- How much of a datagram there is to go through: the pointer that is NULL comes before all of it.
abbrev pub remaining : List ℕ → Cursor → ℕ
remaining bytes Cursor.unread = suc (length bytes)
remaining bytes (Cursor.reading h client rest) = length rest

-- Nothing has changed and there is no message, or the cursor has moved on.
abbrev pub Fetches : List ℕ → Reception → Reception × Option Message → Type 0
Fetches bytes s r = (r ≡ (s, none)) ⊎ (remaining bytes r.0.cursor < remaining bytes s.cursor)

length-drop_lt : (n : ℕ) (xs : List ℕ) → 0 < n → 0 < length xs → length (drop n xs) < length xs
length-drop_lt zero xs h k = elim h [ ]
length-drop_lt (suc n) [] h k = elim k [ ]
length-drop_lt (suc n) (x ∷ xs) h k = omega (arith, length-drop_le n xs)

abbrev AllSized : List MessageType → Type 0
AllSized [] = Unit {0}
AllSized (t ∷ ts) = (0 < message_size t) × AllSized ts

abbrev IsSized : Option MessageType → Type 0
IsSized none = Unit {0}
IsSized (some t) = 0 < message_size t

get_elem?-IsSized : (ts : List MessageType) (n : ℕ) → AllSized ts → IsSized (get_elem? ts n)
get_elem?-IsSized [] n a = tt
get_elem?-IsSized (t ∷ ts) zero a = a.0
get_elem?-IsSized (t ∷ ts) (suc n) a = get_elem?-IsSized ts n a.1

types-AllSized : AllSized (drop 1 message_types)
types-AllSized = ground arith

-- Every type but UNDEFINED has a size.
type_of-IsSized : (n : ℕ) → (n == 0) ≡ false → IsSized (type_of n)
unfolding type_of
type_of-IsSized zero h = absurd (ground arith)
type_of-IsSized (suc n) h = get_elem?-IsSized (drop 1 message_types) n types-AllSized

module _ (o : NetOrder) (protocol_id : ℕ) (sender : EndPoint) (bytes : List ℕ) where
  sized_message-Fetches :
      (s : Reception) (h : Header) (client : Option ℕ) (rest : List ℕ) (type : Option MessageType)
      → s.cursor ≡ Cursor.reading h client rest
      → 0 < length rest
      → IsSized type
      → Gives (Fetches bytes s) (sized_message o protocol_id sender bytes s h client rest type)
  unfolding sized_message
  sized_message-Fetches s h client rest none e l k = tt
  sized_message-Fetches s h client rest (some type) e l k =
      elim (Bool-cases (ltb (length rest) (message_size type))) [
        | inl p ↦ rw (p) (inl refl)
        | inr p ↦ rw (p) (inr (rw (e) (length-drop_lt (message_size type) rest k l)))
      ]

  next_message-Fetches :
      (s : Reception) (k : Cursor)
      → s.cursor ≡ k
      → Gives (Fetches bytes s) (next_message o protocol_id sender bytes s k)
  unfolding next_message
  next_message-Fetches s Cursor.unread e = tt
  next_message-Fetches s (Cursor.reading h client rest) e =
      let type = byte_at rest 0 in
      elim (Bool-cases (ltb (length rest) 6)) [
        | inl p ↦ rw (p) (inl refl)
        | inr p ↦ elim (Bool-cases ((type == 0) || leb 28 type)) [
          | inl q ↦ rw (p, q) (inl refl)
          | inr q ↦
              elim (Bool-cases (is_nobody o protocol_id sender bytes client && not (type == 2))) [
                | inl r ↦ rw (p, q, r) (inl refl)
                | inr r ↦
                    rw (p, q, r)
                      (sized_message-Fetches s h client rest (type_of type) e (some_left p)
                        (type_of-IsSized type (or_false _ _ q).0))
              ]
        ]
      ]
    where
      some_left : ltb (length rest) 6 ≡ false → 0 < length rest
      some_left p = ground arith

  -- The datagram's bytes that a client is given are part of it.
  abbrev Opens : Option Reception → Type 0
  Opens none = Unit {0}
  Opens (some s) = remaining bytes s.cursor ≤ length bytes

  assign-Opens :
      (h : Header) (s : Reception) (r : Option (ℕ × Client))
      → Opens (assign o protocol_id sender bytes h s r)
  unfolding assign behind_header
  assign-Opens h s none = tt
  assign-Opens h s (some (place, c)) = elim (Bool-cases (h.session_id == c.session_id)) [
    | inl e ↦ rw (e) (length-drop_le _ bytes)
    | inr e ↦ rw (e) tt
  ]

  assign_client-Opens :
      (h : Header) (client_id : ℕ) (s : Reception)
      → Gives Opens (assign_client o protocol_id sender bytes h client_id s)
  unfolding assign_client behind_header
  assign_client-Opens h client_id s =
      elim (Bool-cases ((client_id == 65535) && not (is_multicast h))) [
        | inl e ↦ rw (e) (length-drop_le _ bytes)
        | inr e ↦ elim (Bool-cases (is_multicast h)) [
          | inl k ↦ rw (e, k) (assign-Opens h s (find_member client_id s.table.clients))
          | inr k ↦ elim (Bool-cases (ltb client_id (length s.table.clients))) [
            | inr l ↦ rw (e, k, l) tt
            | inl l ↦
                rw (e, k, l)
                  (>>=-Gives (λ _. Unit {0}) Opens
                    (find_unicast o protocol_id sender bytes client_id s.table.clients)
                    (λ r. done (assign o protocol_id sender bytes h s r)) (Gives-any _)
                    (λ r t. assign-Opens h s r))
          ]
        ]
      ]

  open_header-Opens :
      (h : Header) (s : Reception) → Gives Opens (open_header o protocol_id sender bytes h s)
  unfolding open_header
  open_header-Opens h s = elim (Bool-cases (h.protocol_id == protocol_id)) [
    | inr e ↦ rw (e) tt
    | inl e ↦ elim (Bool-cases (ltb 1 (h.version / 4))) [
      | inl k ↦ rw (e, k) tt
      | inr k ↦ rw (e, k) (assign_client-Opens h (o.ntoh16 h.client_id) s)
    ]
  ]

  open_datagram-Opens : (s : Reception) → Gives Opens (open_datagram o protocol_id sender bytes s)
  unfolding open_datagram
  open_datagram-Opens s = elim (Bool-cases (ltb (length bytes) 12)) [
    | inl e ↦ rw (e) tt
    | inr e ↦ rw (e) (open_header-Opens (read_header bytes) s)
  ]

  opened-Fetches :
      (s : Reception) (r : Option Reception)
      → s.cursor ≡ Cursor.unread
      → Opens r
      → Gives (Fetches bytes s) (opened o protocol_id sender bytes s r)
  unfolding opened
  opened-Fetches s none e h = inl refl
  opened-Fetches s (some s') e h =
      Gives-map (next_message o protocol_id sender bytes s' s'.cursor) (λ r f. inr (moved r f))
        (next_message-Fetches s' s'.cursor refl)
    where
      moved :
          (r : Reception × Option Message)
          → Fetches bytes s' r
          → remaining bytes r.0.cursor < remaining bytes s.cursor
      moved r (inl k) = rw (e, k) (omega arith)
      moved r (inr k) = rw (e) (omega arith)

  get_at-Fetches :
      (s : Reception) (k : Cursor)
      → s.cursor ≡ k
      → Gives (Fetches bytes s) (get_at o protocol_id sender bytes s k)
  unfolding get_at
  get_at-Fetches s Cursor.unread e =
      >>=-Gives Opens (Fetches bytes s) (open_datagram o protocol_id sender bytes s)
        (opened o protocol_id sender bytes s) (open_datagram-Opens s)
        (λ r h. opened-Fetches s r e h)
  get_at-Fetches s (Cursor.reading h client rest) e =
      next_message-Fetches s (Cursor.reading h client rest) e

  pub get_message_handler_args-Fetches :
      (s : Reception)
      → Gives (Fetches bytes s) (get_message_handler_args o protocol_id sender bytes s)
  unfolding get_message_handler_args
  get_message_handler_args-Fetches s = get_at-Fetches s s.cursor refl
