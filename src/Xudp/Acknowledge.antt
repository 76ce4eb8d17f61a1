-- ===== src/Xudp/Acknowledge.antt =====
-- What an acknowledgement takes off the messages in flight, and which messages are acknowledged
-- (src/gekkota/gekkota_xudp.c).
use gekkota.Base.{ℕ, ◌+◌, ◌≡◌, refl, ap, List, [], ◌∷◌, ◌++◌, Option, none, some, Bool, true}
use gekkota.Base.{false, Bool-cases, ◌⊎◌, inl, inr, u32, sub32, ◌==◌, ◌&&◌, not, if◌then◌else◌}
use gekkota.Base.{Result, ok, err, NetOrder}
use gekkota.Xudp.Types.{
  Client, Outgoing, Message, MessageType, ClientState, is_set, acknowledge_flag,
}
use gekkota.Xudp.Client.Outgoing.{Allocated, queue_acknowledgement}

abbrev pub is_acknowledged : (number channel_id : ℕ) → Outgoing → Bool
is_acknowledged number channel_id m =
    (m.reliable_sequence_number == number) && (m.message.channel_id == channel_id)

found_before : Outgoing → Option (Outgoing × List Outgoing) → Option (Outgoing × List Outgoing)
found_before m none = none
found_before m (some (a, ms)) = some (a, m ∷ ms)

-- The first message of the number and channel, and the others.
unfoldable pub take_acknowledged :
    (number channel_id : ℕ) → List Outgoing → Option (Outgoing × List Outgoing)
unfolding found_before
take_acknowledged number channel_id [] = none
take_acknowledged number channel_id (m ∷ ms) =
    let rest = take_acknowledged number channel_id ms in
    if is_acknowledged number channel_id m then some (m, ms) else found_before m rest

-- A message without a packet has no data in transit.
unfoldable pub in_transit : (total : ℕ) → Outgoing → ℕ
in_transit total m = elim m.packet [ none ↦ total | some p ↦ sub32 total m.fragment_length ]

unfoldable pub timeout_of : (old : ℕ) → List Outgoing → ℕ
timeout_of old [] = old
timeout_of old (m ∷ ms) = u32 (m.sent_time + m.round_trip_timeout)

unfoldable pub dispose_found : Client → Option (Outgoing × List Outgoing) → Client × MessageType
unfolding in_transit timeout_of
dispose_found c none = (c, MessageType.undefined)
dispose_found c (some (m, ms)) = (
  record c {
    sent_reliable_messages = ms;
    reliable_data_in_transit = in_transit c.reliable_data_in_transit m;
    next_timeout = timeout_of c.next_timeout ms;
  },
  m.message.message_type,
)

unfoldable pub dispose_acknowledged_message :
    Client → (number channel_id : ℕ) → Client × MessageType
unfolding dispose_found
dispose_acknowledged_message c number channel_id =
    dispose_found c (take_acknowledged number channel_id c.sent_reliable_messages)

-- The results 0, 1 and -1 of `_gekkota_xudp_acknowledge`.
pub data Acknowledged : Type 0 where
  skipped queued failed : Acknowledged

acknowledged_by : Client × Result (Unit {0}) → Client × Acknowledged
acknowledged_by (c, ok t) = (c, queued)
acknowledged_by (c, err e) = (c, failed)

acknowledge_in :
    ClientState → Allocated → Client → Message → (sent_time : ℕ) → Client × Acknowledged
unfolding acknowledged_by queue_acknowledgement
acknowledge_in ClientState.disconnecting alloc c m sent_time = (c, skipped)
acknowledge_in ClientState.acknowledging_connect alloc c m sent_time = (c, skipped)
acknowledge_in ClientState.acknowledging_disconnect alloc c m sent_time = elim m.message_type [
  | MessageType.disconnect ↦ acknowledged_by (queue_acknowledgement alloc c m sent_time)
  | _ ↦ (c, skipped)
]
acknowledge_in _ alloc c m sent_time = acknowledged_by (queue_acknowledgement alloc c m sent_time)

module _ (o : NetOrder) where
  -- The version byte has the flag for a sent time as its lowest bit.
  unfoldable pub acknowledge :
      Allocated → (version sent_time : ℕ) → Client → Message → Client × Acknowledged
  unfolding acknowledge_in
  acknowledge alloc version sent_time c m =
      if not (is_set m.flags acknowledge_flag)
      then (c, skipped)
      else if not (is_set version 0)
      then (c, skipped)
      else acknowledge_in c.state alloc c m (o.ntoh16 sent_time)

-- None of the messages has the number on the channel.
unfoldable pub HasNone : (number channel_id : ℕ) → List Outgoing → Type 0
HasNone number channel_id [] = Unit {0}
HasNone number channel_id (m ∷ ms) =
    (is_acknowledged number channel_id m ≡ false) × HasNone number channel_id ms

-- How the messages divide around the first of the number and channel.
unfoldable pub Divides :
    (number channel_id : ℕ) → List Outgoing → Option (Outgoing × List Outgoing) → Type 0
Divides number channel_id ms none = HasNone number channel_id ms
Divides number channel_id ms (some (m, rest)) =
    (front : List Outgoing) × (back : List Outgoing) × (ms ≡ front ++ (m ∷ back))
    × (rest ≡ front ++ back)
    × HasNone number channel_id front
    × (is_acknowledged number channel_id m ≡ true)

Divides-∷ :
    (number channel_id : ℕ) (m : Outgoing) (ms : List Outgoing)
    (o : Option (Outgoing × List Outgoing))
    → is_acknowledged number channel_id m ≡ false
    → Divides number channel_id ms o
    → Divides number channel_id (m ∷ ms) (found_before m o)
unfolding Divides HasNone found_before
Divides-∷ number channel_id m ms none e d = (e, d)
Divides-∷ number channel_id m ms (some (a, rest)) e (front, back, all, others, before, is) =
    (m ∷ front, back, ap (λ t. m ∷ t) all, ap (λ t. m ∷ t) others, (e, before), is)

take_acknowledged-Divides :
    (number channel_id : ℕ) (ms : List Outgoing)
    → Divides number channel_id ms (take_acknowledged number channel_id ms)
unfolding take_acknowledged Divides HasNone
take_acknowledged-Divides number channel_id [] = tt
take_acknowledged-Divides number channel_id (m ∷ ms) =
    elim (Bool-cases (is_acknowledged number channel_id m)) [
      | inl e ↦ rw (e) ([], ms, refl, refl, tt, e)
      | inr e ↦
          rw (e)
            (Divides-∷ number channel_id m ms _ e (take_acknowledged-Divides number channel_id ms))
    ]

-- Either no message in flight has the number on the channel, and then the client stays as it is and
-- the type is UNDEFINED; or the first that has them is taken off, the others keep their order, the
-- type is the message's, and the data in transit shrinks by the message's if it has a packet.
pub dispose_acknowledged_message-divides :
    (c : Client) (number channel_id : ℕ)
    → (HasNone number channel_id c.sent_reliable_messages
        × (dispose_acknowledged_message c number channel_id ≡ (c, MessageType.undefined)))
      ⊎ ((m : Outgoing) × (front : List Outgoing) × (back : List Outgoing)
          × (c.sent_reliable_messages ≡ front ++ (m ∷ back))
          × ((dispose_acknowledged_message c number channel_id).0.sent_reliable_messages
              ≡ front ++ back)
          × HasNone number channel_id front
          × (is_acknowledged number channel_id m ≡ true)
          × ((dispose_acknowledged_message c number channel_id).1 ≡ m.message.message_type)
          × ((dispose_acknowledged_message c number channel_id).0.reliable_data_in_transit
              ≡ in_transit c.reliable_data_in_transit m))
unfolding dispose_acknowledged_message dispose_found Divides
dispose_acknowledged_message-divides c number channel_id =
    by_result (take_acknowledged number channel_id c.sent_reliable_messages)
      (take_acknowledged-Divides number channel_id c.sent_reliable_messages)
  where
    by_result :
        (o : Option (Outgoing × List Outgoing))
        → Divides number channel_id c.sent_reliable_messages o
        → (HasNone number channel_id c.sent_reliable_messages
            × (dispose_found c o ≡ (c, MessageType.undefined)))
          ⊎ ((m : Outgoing) × (front : List Outgoing) × (back : List Outgoing)
              × (c.sent_reliable_messages ≡ front ++ (m ∷ back))
              × ((dispose_found c o).0.sent_reliable_messages ≡ front ++ back)
              × HasNone number channel_id front
              × (is_acknowledged number channel_id m ≡ true)
              × ((dispose_found c o).1 ≡ m.message.message_type)
              × ((dispose_found c o).0.reliable_data_in_transit
                  ≡ in_transit c.reliable_data_in_transit m))
    by_result none d = inl (d, refl)
    by_result (some (m, ms)) (front, back, all, others, before, is) =
        inr (m, front, back, all, others, before, is, refl, refl)
