-- ===== src/Xudp/Host/Fragments.antt =====
-- `_gekkota_xudp_on_data_fragment_message` (src/gekkota/gekkota_xudp.c): packets put together from
-- their fragments. The list of a channel is read from its head; the code goes through it from its
-- tail.
use gekkota.Base.{
  ℕ, ◌+◌, ◌-◌, ◌/◌, ◌%◌, List, [], ◌∷◌, ◌++◌, Option, none, some, Bool, true, false, Result, ok,
  err, NetOrder,
}
use gekkota.Base.{
  Run, done, fault, ◌>>=◌, found, u16, u32, sub32, get_elem?, set, length, take, drop, ltb, leb,
  ◌==◌, ◌||◌, not,
}
use gekkota.Base.{if◌then◌else◌}
use gekkota.Packet
use gekkota.Packet.{Object}
use gekkota.Xudp.Types.{
  Client, Channel, Incoming, Message, MessageType, Fragment, Body, is_set, bit_set,
}
use gekkota.Xudp.Client.Incoming.{adjusted, is_late, queue_incoming_message}
use gekkota.Xudp.Host.Accept.{Code, discarded, processed, failed}
use gekkota.Xudp.Host.Data.{Receipt, Arrived, takes_data, as_packet, with_compressed}

-- Whether a message is the fragment that starts the packet of the number; a message that is queued
-- has the number in the host's byte order.
unfoldable pub starts_packet : (start : ℕ) → MessageType → Body → Bool
starts_packet start MessageType.data_fragment (Body.fragment f) = f.start_sequence_number == start
starts_packet start _ _ = false

-- The last message that starts the packet.
unfoldable pub find_start : (start : ℕ) → List Incoming → Option Incoming
unfolding starts_packet
find_start start [] = none
find_start start (m ∷ ms) =
    let here = if starts_packet start m.message.message_type m.message.body then some m else none in
    elim (find_start start ms) [ none ↦ here | some n ↦ some n ]

abbrev has_start : Option Incoming → Bool
has_start none = false
has_start (some m) = true

-- That message replaced.
unfoldable pub replace_start : (start : ℕ) → Incoming → List Incoming → List Incoming
unfolding starts_packet find_start
replace_start start n [] = []
replace_start start n (m ∷ ms) =
    let rest = replace_start start n ms in
    if has_start (find_start start ms)
    then m ∷ rest
    else if starts_packet start m.message.message_type m.message.body
    then n ∷ ms
    else m ∷ rest

-- A fragment's numbers in the host's byte order; `start` is the adjusted start number.
pub record Part : Type 0 where
  pub start : ℕ
  pub number : ℕ
  pub count : ℕ
  pub offset : ℕ
  pub total : ℕ
  pub bytes : List ℕ

-- `memcpy` to the offset; outside of the block it is a fault.
unfoldable pub write_at : (offset : ℕ) → (bytes block : List ℕ) → Run (List ℕ)
write_at offset bytes block =
    if ltb (length block) (offset + length bytes)
    then fault
    else done (take offset block ++ (bytes ++ drop (offset + length bytes) block))

-- The fragment's bytes that fit the packet.
unfoldable pub fitting : Part → (size : ℕ) → List ℕ
fitting p size =
    if ltb size (u32 (p.offset + length p.bytes))
    then take (u16 (size - p.offset)) p.bytes
    else p.bytes

abbrev pub marked : Part → Incoming → (word : ℕ) → (bytes : List ℕ) → Incoming
marked p m word bytes = record m {
  fragments_remaining = sub32 m.fragments_remaining 1;
  fragments = set m.fragments (p.number / 32) (bit_set word (p.number % 32));
  packet = record { bytes = bytes; flags = m.packet.flags };
}

-- A fragment goes into the packet unless it is there.
unfoldable pub place : Part → Incoming → Run Incoming
unfolding write_at fitting
place p m = found (get_elem? m.fragments (p.number / 32)) >>= λ word.
    if is_set word (p.number % 32)
    then done m
    else (write_at p.offset (fitting p (length m.packet.bytes)) m.packet.bytes >>= λ bytes.
        done (marked p m word bytes))

unfoldable pub with_channel : Client → (channel_id : ℕ) → Channel → Client
with_channel c channel_id ch = record c { channels = set c.channels channel_id ch }

module _ (o : NetOrder) (e : Receipt) where
  abbrev pub arrived : Client → (rest : List ℕ) → Code → Run Arrived
  arrived c rest code = done (record { client = c; rest = rest; code = code })

  -- The fragment goes into the packet of the message that starts it.
  unfoldable pub place_in :
      Client → (channel_id : ℕ) → Part → (rest : List ℕ) → Channel → Option Incoming → Run Arrived
  unfolding place with_channel replace_start
  place_in c channel_id p rest ch none = fault
  place_in c channel_id p rest ch (some m) = place p m >>= λ m'.
      arrived
        (with_channel c channel_id (record ch {
          incoming_reliable_messages = replace_start (u16 p.start) m' ch.incoming_reliable_messages;
        }))
        rest processed

  -- The message that is queued for the first fragment that arrives.
  abbrev pub start_message : Message → Part → Message
  start_message m p = record m {
    sequence_number = u16 p.start;
    body = Body.fragment (record {
      start_sequence_number = u16 p.start;
      fragment_count = p.count;
      fragment_number = p.number;
      fragment_offset = p.offset;
      total_length = p.total;
      len = length p.bytes;
    });
  }

  unfoldable pub after_queue :
      (channel_id : ℕ) → Part → (rest : List ℕ) → Client × Bool → Run Arrived
  unfolding place_in find_start
  after_queue channel_id p rest (c, false) = arrived c rest failed
  after_queue channel_id p rest (c, true) = found (get_elem? c.channels channel_id) >>= λ ch.
      place_in c channel_id p rest ch (find_start (u16 p.start) ch.incoming_reliable_messages)

  unfoldable pub start_packet :
      Client → Message → Part → (rest : List ℕ) → Result Object → Run Arrived
  unfolding after_queue as_packet queue_incoming_message
  start_packet c m p rest (err x) = arrived c rest failed
  start_packet c m p rest (ok q) =
      queue_incoming_message o e.alloc_message c (start_message m p) (as_packet q) p.count e.sender
      >>= after_queue m.channel_id p rest

  unfoldable pub by_start :
      Client → Message → Part → (rest : List ℕ) → Channel → Option Incoming → Run Arrived
  unfolding start_packet place_in with_compressed Packet.new_1
  by_start c m p rest ch none =
      start_packet c m p rest (Packet.new_1 e.memory e.alloc_packet p.total (with_compressed m 1))
  by_start c m p rest ch (some s) =
      if not (p.total == length s.packet.bytes) || not (p.count == s.fragment_count)
      then arrived c rest discarded
      else place_in c m.channel_id p rest ch (some s)

  unfoldable pub is_invalid : Part → Bool
  is_invalid p =
      leb p.total p.offset || ltb p.total (u32 (p.offset + length p.bytes)) || leb p.count p.number

  unfoldable pub on_channel : Client → Message → Part → (rest : List ℕ) → Channel → Run Arrived
  unfolding by_start is_invalid find_start
  on_channel c m p rest ch =
      let base = ch.incoming_reliable_sequence_number in
      let start = adjusted base p.start in
      if ltb start base || is_late base start
      then arrived c rest processed
      else if is_invalid p
      then arrived c rest discarded
      else by_start c m (record p { start = start }) rest ch
          (find_start (u16 start) ch.incoming_reliable_messages)

  abbrev pub part_of : Fragment → (bytes : List ℕ) → Part
  part_of f bytes = record {
    start = o.ntoh16 f.start_sequence_number;
    number = o.ntoh32 f.fragment_number;
    count = o.ntoh32 f.fragment_count;
    offset = o.ntoh32 f.fragment_offset;
    total = o.ntoh32 f.total_length;
    bytes = take (o.ntoh16 f.len) bytes;
  }

  unfoldable pub on_data_fragment : Client → Message → Fragment → (bytes : List ℕ) → Run Arrived
  unfolding takes_data on_channel
  on_data_fragment c m f bytes =
      if not (takes_data c m.channel_id)
      then arrived c bytes discarded
      else if ltb (length bytes) (o.ntoh16 f.len)
      then arrived c [] discarded
      else (found (get_elem? c.channels m.channel_id)
          >>= on_channel c m (part_of f bytes) (drop (o.ntoh16 f.len) bytes))
