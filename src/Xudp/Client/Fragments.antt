-- ===== src/Xudp/Client/Fragments.antt =====
-- Fragments sent by `gekkota_xudpclient_send` (src/gekkota/gekkota_xudpclient.c) cover the packet.
use gekkota.Base.{ℕ, zero, suc, ◌+◌, ◌<◌, ◌≤◌, ◌≡◌, refl, ap, sym, ◌∙◌, arith, List, [], ◌∷◌}
use gekkota.Base.{
  ◌++◌, append_assoc, append-nil, none, some, Bool, true, false, Bool-cases, inl, inr,
}
use gekkota.Base.{
  Result, ok, Run, done, ◌>>=◌, u16, u32, NetOrder, length, take, drop, get_elem?, set,
}
use gekkota.Base.{leb, ne→==_false}
use gekkota.Xudp.Types.{
  Client, Channel, Message, Packet, Outgoing, is_set, bit_set, bit_unset, message_size,
}
use gekkota.Xudp.Types.{
  is_set-bit_set, reliable_flag, unsequenced_flag, compressed_flag, ClientState, in_state,
}
use gekkota.Xudp.Client.Outgoing.{numbered, queue_outgoing_message, new_outgoing, add_outgoing}
use gekkota.Xudp.Client.Send.{
  Series, fragment_message, clipped, send_fragments, after_fragment, fragmented, send_packet,
}
use gekkota.Xudp.Client.Send.{
  send, send_checked, send_connected, fragment_capacity, max_packet_size,
}
use gekkota.Base.{◌/◌, drop_all, le→ltb_false, lt→ltb}

module _ {A : Type 0} where
  pub get_elem?-set :
      (xs : List A) (i : ℕ) (v : A) {w : A}
      → get_elem? xs i ≡ some w
      → get_elem? (set xs i v) i ≡ some v
  get_elem?-set [] i v h = ground arith
  get_elem?-set (x ∷ xs) zero v h = refl
  get_elem?-set (x ∷ xs) (suc i) v h = get_elem?-set xs i v h

  take-append-drop_all : (n : ℕ) (xs : List A) → take n xs ++ drop n xs ≡ xs
  take-append-drop_all zero xs = refl
  take-append-drop_all (suc n) [] = refl
  take-append-drop_all (suc n) (x ∷ xs) = ap (λ t. x ∷ t) (take-append-drop_all n xs)

  take-append-drop :
      (n k j : ℕ) (xs : List A) → j ≡ k + n → take n (drop k xs) ++ drop j xs ≡ drop k xs
  take-append-drop zero zero zero [] h = refl
  take-append-drop (suc n) zero zero [] h = refl
  take-append-drop zero zero (suc j) [] h = refl
  take-append-drop (suc n) zero (suc j) [] h = refl
  take-append-drop zero (suc k) zero [] h = refl
  take-append-drop (suc n) (suc k) zero [] h = refl
  take-append-drop zero (suc k) (suc j) [] h = refl
  take-append-drop (suc n) (suc k) (suc j) [] h = refl
  take-append-drop n zero j (x ∷ xs) h =
      let e : j ≡ n = omega arith in
      ap (λ t. take n (x ∷ xs) ++ drop t (x ∷ xs)) e ∙ take-append-drop_all n (x ∷ xs)
  take-append-drop n (suc k) zero (x ∷ xs) h = absurd (omega arith)
  take-append-drop n (suc k) (suc j) (x ∷ xs) h = take-append-drop n k j xs (omega arith)

get_elem?-leb :
    {A : Type 0} (xs : List A) (i : ℕ) {w : A} → get_elem? xs i ≡ some w → leb (length xs) i ≡ false
get_elem?-leb [] i h = ground arith
get_elem?-leb (x ∷ xs) zero h = ground arith
get_elem?-leb (x ∷ xs) (suc i) h = ground (arith, get_elem?-leb xs i h)

-- What one more reliable message on a channel changes.
pub IsQueued :
    Client → Client → (channel_id : ℕ) → Channel → Packet → (offset len : ℕ) → Outgoing → Type 0
IsQueued c c' channel_id ch p offset len new =
    (c'.outgoing_reliable_messages ≡ c.outgoing_reliable_messages ++ (new ∷ []))
    × (get_elem? c'.channels channel_id
        ≡ some (record ch {
          outgoing_reliable_sequence_number = u16 (ch.outgoing_reliable_sequence_number + 1);
        }))
    × (new.packet ≡ some p)
    × (new.fragment_offset ≡ offset)
    × (new.fragment_length ≡ len)
    × (new.reliable_sequence_number ≡ u16 (ch.outgoing_reliable_sequence_number + 1))

queue_outgoing_message-IsQueued :
    (o : NetOrder) (c : Client) (m : Message) (p : Packet) (offset len : ℕ) (ch : Channel)
    → m.channel_id < 255
    → is_set m.flags 0 ≡ true
    → get_elem? c.channels m.channel_id ≡ some ch
    → (c' : Client) × (new : Outgoing) × (queue_outgoing_message o true c m (some p) offset len
        ≡ done (c', ok tt))
      × IsQueued c c' m.channel_id ch p offset len new
unfolding queue_outgoing_message numbered new_outgoing add_outgoing IsQueued
queue_outgoing_message-IsQueued o c m p offset len ch h f g =
    let k = ne→==_false m.channel_id 255 (λ e. omega arith) in
    let n = u16 (ch.outgoing_reliable_sequence_number + 1) in
    (
      add_outgoing o true
          (record c {
            outgoing_data_total = u32 (c.outgoing_data_total + (message_size m.message_type + len));
            channels =
                set c.channels m.channel_id (record ch { outgoing_reliable_sequence_number = n });
          })
          (new_outgoing o m (some p) offset len n 0),
      new_outgoing o m (some p) offset len n 0,
      rw (k, g, f),
      (refl, get_elem?-set c.channels m.channel_id _ g, refl, refl, refl, refl),
    )

-- The messages are fragments of `p` from `offset` to its end, each one in sequence.
pub IsSeries : Packet → (capacity offset sequence_number : ℕ) → List Outgoing → Type 0
IsSeries p capacity offset sequence_number [] = offset ≡ length p.bytes
IsSeries p capacity offset sequence_number (m ∷ ms) =
    (m.packet ≡ some p)
    × (m.fragment_offset ≡ offset)
    × (0 < m.fragment_length)
    × (m.fragment_length ≤ capacity)
    × (m.reliable_sequence_number ≡ u16 (sequence_number + 1))
    × IsSeries p capacity (offset + m.fragment_length) (u16 (sequence_number + 1)) ms

send_fragments-IsSeries :
    (o : NetOrder) (allocs : ℕ → Bool) (all : (n : ℕ) → allocs n ≡ true) (s : Series) (p : Packet)
    (capacity fuel : ℕ) (c : Client) (number offset len : ℕ) (ch : Channel)
    → s.channel_id < 255
    → get_elem? c.channels s.channel_id ≡ some ch
    → 0 < len
    → len ≤ capacity
    → offset ≤ length p.bytes
    → length p.bytes < fuel + offset
    → (c' : Client) × (ms : List Outgoing) × (send_fragments o allocs s p fuel c number offset len
        ≡ done (c', ok tt))
      × (c'.outgoing_reliable_messages ≡ c.outgoing_reliable_messages ++ ms)
      × IsSeries p capacity offset ch.outgoing_reliable_sequence_number ms
unfolding send_fragments after_fragment fragment_message IsSeries clipped IsQueued
send_fragments-IsSeries o allocs all s p capacity zero c number offset len ch i g h hc ho hf =
    absurd (omega arith)
send_fragments-IsSeries o allocs all s p capacity (suc fuel) c number offset len ch i g h hc ho hf =
    elim (Bool-cases (leb (length p.bytes) offset)) [
      | inl e ↦ (c, [], rw (e), sym (append-nil _), ground arith)
      | inr e ↦
          let n = clipped (length p.bytes) offset len in
          let positive : 0 < n = ground arith in
          let small : n ≤ len = ground arith in
          let fits : offset + n ≤ length p.bytes = ground arith in
          let (c', new, queue, q) =
            queue_outgoing_message-IsQueued o c (fragment_message o allocs s p number offset n) p
              offset n ch i (is_set-bit_set s.flags) g in
          let (c'', ms, rest, behind, series) =
            send_fragments-IsSeries o allocs all s p capacity fuel c' (suc number) (offset + n) n _
              i q.1 positive (omega arith) fits (omega arith) in
          (
            c'',
            new ∷ ms,
            rw (e, all number, queue) rest,
            behind ∙ ap (λ t. t ++ ms) q.0 ∙ append_assoc c.outgoing_reliable_messages _ ms,
            (q.2, q.3, rw (q.4) positive, rw (q.4) (omega arith), q.5, rw (q.4) series),
          )
    ]

-- The bytes of its packet that a message carries.
pub carried : Outgoing → List ℕ
carried m = elim m.packet [
  | none ↦ []
  | some p ↦ take m.fragment_length (drop m.fragment_offset p.bytes)
]

pub joined : List Outgoing → List ℕ
joined [] = []
joined (m ∷ ms) = carried m ++ joined ms

joined-IsSeries :
    (p : Packet) (capacity offset sequence_number : ℕ) (ms : List Outgoing)
    → IsSeries p capacity offset sequence_number ms
    → joined ms ≡ drop offset p.bytes
unfolding IsSeries joined carried
joined-IsSeries p capacity offset sequence_number [] h =
    sym (drop_all offset p.bytes (omega (arith, h)))
joined-IsSeries p capacity offset sequence_number (m ∷ ms) h =
    rw (h.0, h.1)
      (ap (λ t. take m.fragment_length (drop offset p.bytes) ++ t)
          (joined-IsSeries p capacity (offset + m.fragment_length) _ ms h.5)
        ∙ take-append-drop m.fragment_length offset _ p.bytes refl)

-- A packet as its fragments have it.
abbrev pub made_reliable : Packet → Packet
made_reliable p = record p { flags = bit_unset (bit_set p.flags reliable_flag) unsequenced_flag }

fragmented-IsSeries :
    (o : NetOrder) (allocs : ℕ → Bool) (c : Client) (channel_id flags : ℕ) (p : Packet)
    (ch : Channel) (n : ℕ)
    → ((n : ℕ) → allocs n ≡ true)
    → channel_id < 255
    → get_elem? c.channels channel_id ≡ some ch
    → (c' : Client) × (ms : List Outgoing) × (fragmented o allocs c channel_id flags
          ch.outgoing_reliable_sequence_number
          (suc n)
          p
        ≡ done (c', ok tt))
      × (c'.outgoing_reliable_messages ≡ c.outgoing_reliable_messages ++ ms)
      × IsSeries (made_reliable p) (suc n) 0 ch.outgoing_reliable_sequence_number ms
unfolding fragmented
fragmented-IsSeries o allocs c channel_id flags p ch n all i g =
    send_fragments-IsSeries o allocs all
      (record {
        channel_id = channel_id;
        flags = flags;
        start_sequence_number = o.hton16 (u16 (ch.outgoing_reliable_sequence_number + 1));
        fragment_count = o.hton32 (u32 ((length p.bytes + n) / suc n));
      })
      (made_reliable p) (suc n) (suc (length p.bytes)) c 0 0 (suc n) ch i g (omega arith)
      (omega arith) (omega arith) (omega arith)

-- On a connected client that is no member of a multicast group, when no allocation fails, sending
-- a packet that is not to be compressed, is longer than the bytes that a fragment can hold and no
-- longer than the limit, over a channel that exists, succeeds and adds to the outgoing reliable
-- messages a series of messages, each with at least one byte and none with more than a fragment
-- can hold, whose offsets follow each other from 0 to the packet's length and whose sequence
-- numbers are consecutive from the channel's; what they carry, joined, are the packet's bytes.
pub send-IsSeries :
    (o : NetOrder) (allocs : ℕ → Bool) (deflate : Packet → Result Packet) (c : Client)
    (channel_id : ℕ) (p : Packet) (ch : Channel)
    → ((n : ℕ) → allocs n ≡ true)
    → c.state ≡ ClientState.connected
    → c.is_multicast_group_member ≡ false
    → is_set p.flags compressed_flag ≡ false
    → 0 < fragment_capacity c
    → fragment_capacity c < length p.bytes
    → length p.bytes ≤ max_packet_size
    → channel_id < 255
    → get_elem? c.channels channel_id ≡ some ch
    → (c' : Client) × (ms : List Outgoing) × (send o allocs deflate (some c) channel_id (some p)
        ≡ done (some c', ok tt))
      × (c'.outgoing_reliable_messages ≡ c.outgoing_reliable_messages ++ ms)
      × IsSeries (made_reliable p) (fragment_capacity c) 0 ch.outgoing_reliable_sequence_number ms
      × (joined ms ≡ p.bytes)
unfolding send send_checked send_connected send_packet
send-IsSeries o allocs deflate c channel_id p ch all state group plain room long short i g =
    let (n, e) = positive (fragment_capacity c) room in
    let (c', ms, sent, behind, series) =
      fragmented-IsSeries o allocs c channel_id 0 p ch n all i g in
    (
      c',
      ms,
      send_packet-eq
            (fragmented o allocs c channel_id 0 ch.outgoing_reliable_sequence_number
              (fragment_capacity c) p)
            refl
          ∙ ap
              (λ k.
                fragmented o allocs c channel_id 0 ch.outgoing_reliable_sequence_number k p >>= λ r.
                done (some r.0, r.1))
              e
          ∙ ap (λ r. r >>= λ r. done (some r.0, r.1)) sent,
      behind,
      rw (e) series,
      joined-IsSeries (made_reliable p) (suc n) 0 _ ms series,
    )
  where
    send_packet-eq :
        (f : Run (Client × Result (Unit {0})))
        → f
          ≡ fragmented o allocs c channel_id 0 ch.outgoing_reliable_sequence_number
              (fragment_capacity c)
              p
        → send o allocs deflate (some c) channel_id (some p) ≡ (f >>= λ r. done (some r.0, r.1))
    send_packet-eq f q = simp (
      le→ltb_false max_packet_size (length p.bytes) short,
      get_elem?-leb c.channels channel_id g,
      ap (λ s. in_state s ClientState.connected) state,
      group,
      plain,
      g,
      lt→ltb (fragment_capacity c) (length p.bytes) long,
      q,
    )

    positive : (n : ℕ) → 0 < n → (k : ℕ) × (n ≡ suc k)
    positive zero h = absurd (omega arith)
    positive (suc k) h = (k, refl)
