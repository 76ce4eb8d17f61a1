-- ===== src/Xudp/Client/Arrivals.antt =====
-- Reliable messages that `_gekkota_xudpclient_queue_incoming_message` takes into a channel
-- (src/gekkota/gekkota_xudpclient.c).
use gekkota.Xudp.Client.Order.{IsIn→HasNumber}
use gekkota.Base.{ℕ, ◌<◌, ◌≤◌, ◌≡◌, refl, arith, some, Bool, true, false, Bool-cases}
use gekkota.Base.{inl, inr, ltb, ◌||◌, ◌==◌, NetOrder, ltb_false→le}
use gekkota.Xudp.Types.{Channel, Incoming, MessageType, is_unsequenced_data}
use gekkota.Xudp.Client.Incoming.{adjusted, is_late, is_ruled_out, queue_reliable, queue_by_type}
use gekkota.Xudp.Client.Incoming.{queue_on_channel, inserted, with_reliable}
use gekkota.Xudp.Client.Order.{IsOrdered, IsAbove, HasGained, HasNumber, IsReliable, none_ne}
use gekkota.Xudp.Client.Order.{gt→leb_false, queue_reliable-HasGained, HasNumber-duplicate}

-- The two tests of a number together.
abbrev is_out : (base n : ℕ) → Bool
is_out base n = ltb n base || is_late base n

module _ (o : NetOrder) where
  queue_by_type-IsReliable :
      (type : MessageType) (ch : Channel) (new : Incoming) (n : ℕ)
      → IsReliable type
      → queue_by_type o type ch new n ≡ queue_reliable ch new n
  unfolding IsReliable queue_by_type
  queue_by_type-IsReliable MessageType.data_fragment ch new n r = refl
  queue_by_type-IsReliable MessageType.reliable_data ch new n r = refl
  queue_by_type-IsReliable _ ch new n r = absurd r

  IsReliable-sequenced : (type : MessageType) → IsReliable type → is_unsequenced_data type ≡ false
  unfolding IsReliable
  IsReliable-sequenced MessageType.data_fragment r = refl
  IsReliable-sequenced MessageType.reliable_data r = refl
  IsReliable-sequenced _ r = absurd r

  adjusted-low : (base n : ℕ) → base < 61440 → adjusted base n ≡ n
  unfolding adjusted
  adjusted-low base n h = rw (gt→leb_false 61440 base h) refl

  -- What a reliable message that is taken has passed.
  queue_on_channel-IsReliable :
      (alloc : Bool) (ch ch' : Channel) (new : Incoming)
      → IsReliable new.message.message_type
      → ch.incoming_reliable_sequence_number < 61440
      → queue_on_channel o alloc ch new ≡ some ch'
      → (ch.incoming_reliable_sequence_number ≤ new.message.sequence_number)
        × (queue_reliable ch new new.message.sequence_number ≡ some ch')
  unfolding queue_on_channel is_ruled_out
  queue_on_channel-IsReliable alloc ch ch' new r low h =
      let e =
        rw
          (
            adjusted-low _ new.message.sequence_number low,
            IsReliable-sequenced _ r,
            queue_by_type-IsReliable _ ch new new.message.sequence_number r,
          )
          at h in
      elim (Bool-cases (is_out ch.incoming_reliable_sequence_number new.message.sequence_number)) [
        | inl q ↦ absurd (none_ne (rw (q) at e))
        | inr q ↦ elim (Bool-cases alloc) [
          | inl a ↦ (ltb_false→le _ _ (or_left _ _ q), rw (a) at (rw (q) at e))
          | inr a ↦ absurd (none_ne (rw (a) at (rw (q) at e)))
        ]
      ]
    where
      or_left : (a b : Bool) → (a || b) ≡ false → a ≡ false
      or_left true b p = p
      or_left false b p = refl

queue_reliable-HasNumber :
    (ch ch' : Channel) (new : Incoming) (n : ℕ)
    → n < 65536
    → new.reliable_sequence_number ≡ n
    → IsAbove ch.incoming_reliable_sequence_number ch.incoming_reliable_messages
    → HasNumber n ch.incoming_reliable_messages
    → ¬ (queue_reliable ch new n ≡ some ch')
unfolding queue_reliable with_reliable inserted
queue_reliable-HasNumber ch ch' new n small own above has h =
    elim (Bool-cases (n == ch.incoming_reliable_sequence_number)) [
      | inl e ↦ none_ne (rw (e) at h)
      | inr e ↦ none_ne (rw (e, HasNumber-duplicate new n small own _ _ above has) at h)
    ]

-- A reliable message that is taken, while the channel's number is not at the high end of the 16
-- bits and its list is in order above that number, leaves the number as it was and the list in
-- order and longer by one, with the message in it.
pub queue_on_channel-HasGained :
    (o : NetOrder) (alloc : Bool) (ch ch' : Channel) (new : Incoming)
    → IsReliable new.message.message_type
    → new.message.sequence_number < 65536
    → new.reliable_sequence_number ≡ new.message.sequence_number
    → ch.incoming_reliable_sequence_number < 61440
    → IsOrdered ch
    → queue_on_channel o alloc ch new ≡ some ch'
    → HasGained ch new ch'
queue_on_channel-HasGained o alloc ch ch' new r small own low above h =
    let (fresh, queued) = queue_on_channel-IsReliable o alloc ch ch' new r low h in
    queue_reliable-HasGained ch ch' new new.message.sequence_number small own fresh above queued

-- After a reliable message is taken, while the channel's number is not at the high end of the 16
-- bits and its list is in order above that number, no reliable message of the same number is
-- taken.
pub queue_on_channel_twice :
    (o : NetOrder) (alloc again : Bool) (ch ch' ch'' : Channel) (new copy : Incoming)
    → IsReliable new.message.message_type
    → new.message.sequence_number < 65536
    → new.reliable_sequence_number ≡ new.message.sequence_number
    → ch.incoming_reliable_sequence_number < 61440
    → IsOrdered ch
    → queue_on_channel o alloc ch new ≡ some ch'
    → IsReliable copy.message.message_type
    → copy.reliable_sequence_number ≡ copy.message.sequence_number
    → copy.message.sequence_number ≡ new.message.sequence_number
    → ¬ (queue_on_channel o again ch' copy ≡ some ch'')
unfolding HasGained IsOrdered
queue_on_channel_twice o alloc again ch ch' ch'' new copy r small own low above h r' own' same h' =
    let (base, unreliable, ordered, is, more) =
      queue_on_channel-HasGained o alloc ch ch' new r small own low above h in
    let (fresh, queued) = queue_on_channel-IsReliable o again ch' ch'' copy r' (rw (base) low) h' in
    queue_reliable-HasNumber ch' ch'' copy copy.message.sequence_number (omega arith) own' ordered
      (rw (same) (IsIn→HasNumber new _ _ own is)) queued
