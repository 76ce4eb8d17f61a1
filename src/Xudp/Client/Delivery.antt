-- ===== src/Xudp/Client/Delivery.antt =====
-- What `gekkota_xudpclient_receive` (src/gekkota/gekkota_xudpclient.c) hands out after a message
-- arrived.
use gekkota.Base.{◌+◌, ◌<◌, ◌≡◌, ◌∙◌, ap, arith, List, [], ◌∷◌, some, Bool, true, false}
use gekkota.Base.{NetOrder, u16, ◌==◌}
use gekkota.Xudp.Types.{Channel, Incoming}
use gekkota.Xudp.Client.Incoming.{queue_on_channel}
use gekkota.Xudp.Client.Receive.{
  take_message, take_unreliable, take_next, take_reliable, last_number,
}
use gekkota.Xudp.Client.Order.{IsOrdered, IsReliable, HasGained, IsIn-next}
use gekkota.Xudp.Client.Arrivals.{queue_on_channel-HasGained}

take_reliable-first :
    (ch : Channel) (new : Incoming) (rest : List Incoming)
    → new.fragments_remaining ≡ 0
    → (new.reliable_sequence_number == u16 (ch.incoming_reliable_sequence_number + 1)) ≡ true
    → take_reliable ch (new ∷ rest)
      ≡ some (
        new,
        record ch {
          incoming_reliable_sequence_number = last_number new;
          incoming_reliable_messages = rest;
        },
      )
unfolding take_reliable
take_reliable-first ch new rest complete expected = simp (complete, expected)

take_message_lem :
    (ch : Channel) (new : Incoming) (rest : List Incoming)
    → ch.incoming_unreliable_messages ≡ []
    → ch.incoming_reliable_messages ≡ new ∷ rest
    → new.fragments_remaining ≡ 0
    → (new.reliable_sequence_number == u16 (ch.incoming_reliable_sequence_number + 1)) ≡ true
    → take_message false ch
      ≡ some (
        new,
        record ch {
          incoming_reliable_sequence_number = last_number new;
          incoming_reliable_messages = rest;
        },
      )
unfolding take_message take_next take_unreliable
take_message_lem ch new rest quiet first complete expected =
    ap (λ u. take_next false ch (take_unreliable ch u)) quiet
    ∙ ap (λ t. take_reliable ch t) first
    ∙ take_reliable-first ch new rest complete expected

-- When a reliable message is taken, while the channel's number is below the high end of the 16
-- bits, its list is in order above that number and it has no unreliable messages, and the message
-- has the number next to the channel's and no fragments to wait for, then it is what a client that
-- is no member of a multicast group takes next from the channel: the channel loses just that
-- message and its number becomes the message's last.
pub take_message-queue_on_channel :
    (o : NetOrder) (alloc : Bool) (ch ch' : Channel) (new : Incoming)
    → IsReliable new.message.message_type
    → new.message.sequence_number < 65536
    → new.reliable_sequence_number ≡ new.message.sequence_number
    → ch.incoming_reliable_sequence_number < 61440
    → IsOrdered ch
    → queue_on_channel o alloc ch new ≡ some ch'
    → ch.incoming_unreliable_messages ≡ []
    → new.fragments_remaining ≡ 0
    → new.message.sequence_number ≡ ch.incoming_reliable_sequence_number + 1
    → (rest : List Incoming) × (ch'.incoming_reliable_messages ≡ new ∷ rest)
      × (take_message false ch'
          ≡ some (
            new,
            record ch' {
              incoming_reliable_sequence_number = last_number new;
              incoming_reliable_messages = rest;
            },
          ))
unfolding HasGained IsOrdered
take_message-queue_on_channel o alloc ch ch' new r small own low above h quiet complete next =
    let (base, unreliable, ordered, is, more) =
      queue_on_channel-HasGained o alloc ch ch' new r small own low above h in
    let (rest, first) = IsIn-next _ new ch'.incoming_reliable_messages ordered is (omega arith) in
    let expected : new.reliable_sequence_number == u16 (ch'.incoming_reliable_sequence_number + 1)
        ≡ true =
      ground arith in
    (rest, first, take_message_lem ch' new rest (unreliable ∙ quiet) first complete expected)
