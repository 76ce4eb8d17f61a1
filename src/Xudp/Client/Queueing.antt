-- ===== src/Xudp/Client/Queueing.antt =====
-- A client whose call of `_gekkota_xudpclient_queue_incoming_message`
-- (src/gekkota/gekkota_xudpclient.c) returns 0 for a reliable message.
use gekkota.Base.{
  ℕ, ◌<◌, ◌≡◌, refl, ap, Option, none, some, Bool, true, false, Bool-cases, inl, inr,
}
use gekkota.Base.{NetOrder, done, done-injective, get_elem?}
use gekkota.Xudp.Types.{Client, Channel, Message, Packet, EndPoint, ClientState, in_state}
use gekkota.Xudp.Client.Incoming.{queue_incoming_message, new_incoming, queued_client}
use gekkota.Xudp.Client.Order.{IsOrdered, IsReliable, HasGained}
use gekkota.Xudp.Client.Arrivals.{queue_on_channel-HasGained}
use gekkota.Xudp.Client.Fragments.{get_elem?-set}

true_ne : false ≡ true → ⊥
true_ne e = cc

module _ (o : NetOrder) (c c' : Client) (channel_id : ℕ) (ch : Channel) where
  queued_client-true :
      (r : Option Channel)
      → get_elem? c.channels channel_id ≡ some ch
      → queued_client o c channel_id r ≡ (c', true)
      → (ch' : Channel) × (r ≡ some ch') × (get_elem? c'.channels channel_id ≡ some ch')
  unfolding queued_client
  queued_client-true none g h = absurd (true_ne (ap (λ q. q.1) h))
  queued_client-true (some ch') g h =
      (ch', refl, rw (← ap (λ q. q.0.channels) h) (get_elem?-set c.channels channel_id ch' g))

-- When a reliable message is queued for a client with success, while the number of the message's
-- channel is not at the high end of the 16 bits and the channel's list is in order above that
-- number, the channel's number and unreliable messages stay as they were, and its list is in order
-- and longer by one, with the message in it.
pub queue_incoming_message-HasGained :
    (o : NetOrder) (alloc : Bool) (c c' : Client) (m : Message) (p : Packet) (fragment_count : ℕ)
    (from : EndPoint) (ch : Channel)
    → IsReliable m.message_type
    → m.sequence_number < 65536
    → get_elem? c.channels m.channel_id ≡ some ch
    → ch.incoming_reliable_sequence_number < 61440
    → IsOrdered ch
    → queue_incoming_message o alloc c m p fragment_count from ≡ done (c', true)
    → (ch' : Channel) × (get_elem? c'.channels m.channel_id ≡ some ch')
      × HasGained ch (new_incoming o m p fragment_count from) ch'
unfolding queue_incoming_message new_incoming
queue_incoming_message-HasGained o alloc c c' m p fragment_count from ch r small g low above h =
    elim (Bool-cases (in_state c.state ClientState.delaying_disconnect)) [
      | inl e ↦ absurd (true_ne (ap (λ q. q.1) (done-injective (rw (e) at h))))
      | inr e ↦
          let (ch', queued, got) =
            queued_client-true o c c' m.channel_id ch _ g (done-injective (rw (e, g) at h)) in
          (ch', got, queue_on_channel-HasGained o alloc ch ch' _ r small refl low above queued)
    ]
