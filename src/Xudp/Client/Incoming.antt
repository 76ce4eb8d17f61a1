-- ===== src/Xudp/Client/Incoming.antt =====
-- `_gekkota_xudpclient_queue_incoming_message` (src/gekkota/gekkota_xudpclient.c). The Boolean says
-- whether the allocation succeeds. The lists are read from their heads; the code goes through them
-- from their tails.
use gekkota.Base.{ℕ, ◌+◌, ◌-◌, ◌/◌, List, [], ◌∷◌, Option, none, some, Bool, true, false}
use gekkota.Base.{NetOrder, u16, u32, get_elem?, set, replicate, leb, ltb, ◌==◌, ◌&&◌, ◌||◌}
use gekkota.Base.{if◌then◌else◌, Run, done, found, ◌>>=◌}
use gekkota.Xudp.Types.{Client, Channel, Incoming, Message, MessageType, Packet, EndPoint, Body}
use gekkota.Xudp.Types.{ClientState, in_state, is_unreliable_data, is_unsequenced_data}

-- A number at the low end of the 16 bits that comes when the numbers so far are at the high end is
-- taken as one beyond 2^16.
unfoldable pub adjusted : (base number : ℕ) → ℕ
adjusted base number = if leb 61440 base && ltb number 4096 then number + 65536 else number

-- At the low end, numbers of the high end are late.
unfoldable pub is_late : (base number : ℕ) → Bool
is_late base number = ltb base 4096 && leb 61440 (u16 number)

unfoldable pub reduced : (number other : ℕ) → ℕ
reduced number other = if leb 65536 number && ltb other 61440 then number - 65536 else number

-- A scan from the tail of a list: it has passed all the messages, or has placed the new one behind
-- one of them, or has met a message of the same number.
pub data Scan : Type 0 where
  passed : ℕ → Scan
  placed : List Incoming → Scan
  duplicate : Scan

module _ (key : Incoming → Option ℕ) (new : Incoming) where
  unfoldable pub compare_with : (number other : ℕ) → Incoming → List Incoming → Scan
  compare_with number other m ms =
      if leb other number
      then if ltb other number then placed (m ∷ new ∷ ms) else duplicate
      else passed number

  -- A message without a key is skipped.
  unfoldable pub visit : Scan → Option ℕ → Incoming → List Incoming → Scan
  unfolding compare_with
  visit (passed number) (some other) m ms = compare_with (reduced number other) other m ms
  visit (passed number) none m ms = passed number
  visit (placed ms') k m ms = placed (m ∷ ms')
  visit duplicate k m ms = duplicate

  unfoldable pub scan : ℕ → List Incoming → Scan
  unfolding visit
  scan number [] = passed number
  scan number (m ∷ ms) = visit (scan number ms) (key m) m ms

  -- A scan that passed all leaves the iterator at the sentinel, and the message goes before the
  -- first.
  unfoldable pub inserted : Scan → List Incoming → Option (List Incoming)
  inserted (passed number) ms = some (new ∷ ms)
  inserted (placed ms') ms = some ms'
  inserted duplicate ms = none

abbrev pub reliable_key : Incoming → Option ℕ
reliable_key m = some m.reliable_sequence_number

abbrev pub unreliable_key : Incoming → Option ℕ
unreliable_key m =
    if is_unreliable_data m.message.message_type then some m.unreliable_sequence_number else none

unfoldable pub with_reliable : Channel → Option (List Incoming) → Option Channel
with_reliable ch none = none
with_reliable ch (some ms) = some (record ch { incoming_reliable_messages = ms })

with_unreliable : Channel → Option (List Incoming) → Option Channel
with_unreliable ch none = none
with_unreliable ch (some ms) = some (record ch { incoming_unreliable_messages = ms })

-- The switch on the message's type, for a message that passed the tests before it.
unfoldable pub queue_reliable : Channel → Incoming → (number : ℕ) → Option Channel
unfolding with_reliable
queue_reliable ch new number =
    if number == ch.incoming_reliable_sequence_number
    then none
    else with_reliable ch (
        inserted reliable_key new (scan reliable_key new number ch.incoming_reliable_messages)
          ch.incoming_reliable_messages)

unfoldable pub queue_unreliable : Channel → Incoming → (number : ℕ) → Option Channel
unfolding with_unreliable
queue_unreliable ch new number =
    (let n = adjusted ch.incoming_unreliable_sequence_number number in
      if leb n ch.incoming_unreliable_sequence_number
        || is_late ch.incoming_unreliable_sequence_number n
      then none
      else with_unreliable ch (
          inserted unreliable_key new (scan unreliable_key new n ch.incoming_unreliable_messages)
            ch.incoming_unreliable_messages))

module _ (o : NetOrder) where
  -- `unreliableData.sequenceNumber` of a message.
  abbrev unreliable_number : Body → ℕ
  unreliable_number (Body.unreliable number len) = o.ntoh16 number
  unreliable_number _ = 0

  unfoldable pub queue_by_type : MessageType → Channel → Incoming → (number : ℕ) → Option Channel
  unfolding queue_reliable queue_unreliable
  queue_by_type MessageType.data_fragment ch new number = queue_reliable ch new number
  queue_by_type MessageType.reliable_data ch new number = queue_reliable ch new number
  queue_by_type MessageType.unreliable_data ch new number =
      queue_unreliable ch new (unreliable_number new.message.body)
  queue_by_type MessageType.unsequenced_data ch new number =
      some (record ch { incoming_unreliable_messages = new ∷ ch.incoming_unreliable_messages })
  queue_by_type _ ch new number = none

  unfoldable pub new_incoming : Message → Packet → (fragment_count : ℕ) → EndPoint → Incoming
  new_incoming m p fragment_count from = record {
    reliable_sequence_number = m.sequence_number;
    unreliable_sequence_number =
        if is_unreliable_data m.message_type then u16 (unreliable_number m.body) else 0;
    fragment_count = fragment_count;
    fragments_remaining = fragment_count;
    fragments = replicate (u32 (fragment_count + 31) / 32) 0;
    packet = p;
    message = m;
    remote_endpoint = from;
  }

  -- A message that the sequence numbers so far rule out: not for messages without sequence.
  unfoldable pub is_ruled_out : Channel → MessageType → (number : ℕ) → Bool
  is_ruled_out ch type number =
      if is_unsequenced_data type
      then false
      else ltb number ch.incoming_reliable_sequence_number
        || is_late ch.incoming_reliable_sequence_number number

  -- The channel with the message, or `none` where the code returns -1.
  unfoldable pub queue_on_channel : Bool → Channel → Incoming → Option Channel
  unfolding is_ruled_out queue_by_type
  queue_on_channel alloc ch new =
      let number = adjusted ch.incoming_reliable_sequence_number new.message.sequence_number in
      if is_ruled_out ch new.message.message_type number
      then none
      else if alloc
      then queue_by_type new.message.message_type ch new number
      else none

  unfoldable pub queued_client : Client → ℕ → Option Channel → Client × Bool
  queued_client c channel_id none = (c, false)
  queued_client c channel_id (some ch) =
      (record c { channels = set c.channels channel_id ch }, true)

  -- The client and whether the code returns 0.
  unfoldable pub queue_incoming_message :
      Bool → Client → Message → Packet → (fragment_count : ℕ) → EndPoint → Run (Client × Bool)
  unfolding new_incoming queue_on_channel queued_client
  queue_incoming_message alloc c m p fragment_count from =
      if in_state c.state ClientState.delaying_disconnect
      then done (c, false)
      else (found (get_elem? c.channels m.channel_id) >>= λ ch. done (
          queued_client c m.channel_id
            (queue_on_channel alloc ch (new_incoming m p fragment_count from))))
