-- ===== src/Xudp/Host/Rest.antt =====
-- What the handlers of messages with data leave of a datagram (src/gekkota/gekkota_xudp.c).
use gekkota.Base.{
  ℕ, zero, suc, ◌≤◌, ◌≡◌, refl, arith, List, [], ◌∷◌, Option, none, some, Bool, true, false,
  Bool-cases, inl, inr,
}
use gekkota.Base.{u16, ◌>>=◌}
use gekkota.Base.{
  Result, ok, err, NetOrder, Run, done, Gives-map, found, ◌==◌, ◌||◌, get_elem?, Gives, >>=-Gives,
  Gives-any, length, drop, ltb, not, if◌then◌else◌,
}
use gekkota.Packet.{Object}
use gekkota.Xudp.Types.{Client, Channel, Incoming, Message, Fragment}
use gekkota.Xudp.Client.Incoming.{queue_incoming_message, adjusted, is_late}
use gekkota.Xudp.Unsequenced.{accept}
use gekkota.Xudp.Host.Accept.{Code, discarded, failed}
use gekkota.Xudp.Host.Data.{
  Receipt, Arrived, takes_data, queue_packet, queue_data, by_window, as_packet, on_reliable_data,
  on_unreliable_data, on_unsequenced_data,
}
use gekkota.Xudp.Host.Fragments.{
  Part, place, place_in, after_queue, start_message, start_packet, by_start, is_invalid, on_channel,
  find_start, part_of, on_data_fragment,
}

-- The bytes left are not more than those there were.
abbrev pub Shrinks : List ℕ → Arrived → Type 0
Shrinks bytes r = length r.rest ≤ length bytes

abbrev Keeps : List ℕ → Arrived → Type 0
Keeps rest r = r.rest ≡ rest

pub length-drop_le : (n : ℕ) (xs : List ℕ) → length (drop n xs) ≤ length xs
length-drop_le zero xs = omega arith
length-drop_le (suc n) [] = omega arith
length-drop_le (suc n) (x ∷ xs) = omega (arith, length-drop_le n xs)

-- The tests of the handlers leave the bytes or nothing of them.
guarded-Shrinks :
    (c : Client) (channel_id len : ℕ) (bytes : List ℕ) (other : Code) (rest : Run Arrived)
    → Gives (Shrinks bytes) rest
    → Gives (Shrinks bytes) (
        if not (takes_data c channel_id)
        then done (record { client = c; rest = bytes; code = other })
        else if ltb (length bytes) len
        then done (record { client = c; rest = []; code = discarded })
        else rest)
guarded-Shrinks c channel_id len bytes other rest h = elim (Bool-cases (takes_data c channel_id)) [
  | inr k ↦ rw (k) (omega arith)
  | inl k ↦ elim (Bool-cases (ltb (length bytes) len)) [
    | inl l ↦ rw (k, l) (omega arith)
    | inr l ↦ rw (k, l) h
  ]
]

module _ (o : NetOrder) (e : Receipt) where
  queue_packet-Keeps :
      (c : Client) (m : Message) (rest : List ℕ) (p : Result Object)
      → Gives (Keeps rest) (queue_packet o e c m rest p)
  unfolding queue_packet
  queue_packet-Keeps c m rest (err x) = refl
  queue_packet-Keeps c m rest (ok p) =
      >>=-Gives (λ _. Unit) (Keeps rest)
        (queue_incoming_message o e.alloc_message c m (as_packet p) 0 e.sender) _ (Gives-any _)
        (λ r t. refl)

  Keeps-Shrinks :
      (rest bytes : List ℕ) (r : Arrived)
      → length rest ≤ length bytes
      → Keeps rest r
      → Shrinks bytes r
  Keeps-Shrinks rest bytes r h k = rw (k) h

  queue_data-Shrinks :
      (c : Client) (m : Message) (bytes : List ℕ) (len flags : ℕ)
      → Gives (Shrinks bytes) (queue_data o e c m bytes len flags)
  unfolding queue_data
  queue_data-Shrinks c m bytes len flags =
      Gives-map _ (λ r k. Keeps-Shrinks (drop len bytes) bytes r (length-drop_le len bytes) k)
        (queue_packet-Keeps c m (drop len bytes) _)

  by_window-Shrinks :
      (c : Client) (m : Message) (len : ℕ) (bytes : List ℕ) (r : Option (ℕ × List ℕ))
      → Gives (Shrinks bytes) (by_window o e c m len bytes r)
  unfolding by_window
  by_window-Shrinks c m len bytes none = length-drop_le len bytes
  by_window-Shrinks c m len bytes (some (first, window)) = queue_data-Shrinks _ m bytes len 2

  pub on_reliable_data-Shrinks :
      (c : Client) (m : Message) (len : ℕ) (bytes : List ℕ)
      → Gives (Shrinks bytes) (on_reliable_data o e c m len bytes)
  unfolding on_reliable_data
  on_reliable_data-Shrinks c m len bytes =
      guarded-Shrinks c m.channel_id (o.ntoh16 len) bytes failed
        (queue_data o e c m bytes (o.ntoh16 len) 1) (queue_data-Shrinks c m bytes (o.ntoh16 len) 1)

  pub on_unreliable_data-Shrinks :
      (c : Client) (m : Message) (len : ℕ) (bytes : List ℕ)
      → Gives (Shrinks bytes) (on_unreliable_data o e c m len bytes)
  unfolding on_unreliable_data
  on_unreliable_data-Shrinks c m len bytes =
      guarded-Shrinks c m.channel_id (o.ntoh16 len) bytes discarded
        (queue_data o e c m bytes (o.ntoh16 len) 0) (queue_data-Shrinks c m bytes (o.ntoh16 len) 0)

  pub on_unsequenced_data-Shrinks :
      (c : Client) (m : Message) (group len : ℕ) (bytes : List ℕ)
      → Gives (Shrinks bytes) (on_unsequenced_data o e c m group len bytes)
  unfolding on_unsequenced_data
  on_unsequenced_data-Shrinks c m group len bytes =
      let r = accept c.incoming_unsequenced_group c.unsequenced_window (o.ntoh16 group) in
      guarded-Shrinks c m.channel_id (o.ntoh16 len) bytes discarded
        (by_window o e c m (o.ntoh16 len) bytes r) (by_window-Shrinks c m (o.ntoh16 len) bytes r)

  place_in-Keeps :
      (c : Client) (channel_id : ℕ) (p : Part) (rest : List ℕ) (ch : Channel) (m : Option Incoming)
      → Gives (Keeps rest) (place_in o e c channel_id p rest ch m)
  unfolding place_in
  place_in-Keeps c channel_id p rest ch none = tt
  place_in-Keeps c channel_id p rest ch (some m) =
      >>=-Gives (λ _. Unit) (Keeps rest) (place p m) _ (Gives-any _) (λ n t. refl)

  after_queue-Keeps :
      (channel_id : ℕ) (p : Part) (rest : List ℕ) (r : Client × Bool)
      → Gives (Keeps rest) (after_queue o e channel_id p rest r)
  unfolding after_queue
  after_queue-Keeps channel_id p rest (c, false) = refl
  after_queue-Keeps channel_id p rest (c, true) =
      >>=-Gives (λ _. Unit) (Keeps rest) (found (get_elem? c.channels channel_id)) _ (Gives-any _)
        (λ ch t. place_in-Keeps c channel_id p rest ch _)

  start_packet-Keeps :
      (c : Client) (m : Message) (p : Part) (rest : List ℕ) (r : Result Object)
      → Gives (Keeps rest) (start_packet o e c m p rest r)
  unfolding start_packet
  start_packet-Keeps c m p rest (err x) = refl
  start_packet-Keeps c m p rest (ok q) =
      >>=-Gives (λ _. Unit) (Keeps rest)
        (queue_incoming_message o e.alloc_message c (start_message o e m p) (as_packet q) p.count
          e.sender)
        _ (Gives-any _) (λ r t. after_queue-Keeps m.channel_id p rest r)

  by_start-Keeps :
      (c : Client) (m : Message) (p : Part) (rest : List ℕ) (ch : Channel) (s : Option Incoming)
      → Gives (Keeps rest) (by_start o e c m p rest ch s)
  unfolding by_start
  by_start-Keeps c m p rest ch none = start_packet-Keeps c m p rest _
  by_start-Keeps c m p rest ch (some s) =
      elim (Bool-cases
        (not (p.total == length s.packet.bytes) || not (p.count == s.fragment_count))) [
          | inl k ↦ rw (k) refl
          | inr k ↦ rw (k) (place_in-Keeps c m.channel_id p rest ch (some s))
        ]

  on_channel-Keeps :
      (c : Client) (m : Message) (p : Part) (rest : List ℕ) (ch : Channel)
      → Gives (Keeps rest) (on_channel o e c m p rest ch)
  unfolding on_channel
  on_channel-Keeps c m p rest ch =
      let base = ch.incoming_reliable_sequence_number in
      let start = adjusted base p.start in
      elim (Bool-cases (ltb start base || is_late base start)) [
        | inl k ↦ rw (k) refl
        | inr k ↦ elim (Bool-cases (is_invalid o e p)) [
          | inl l ↦ rw (k, l) refl
          | inr l ↦
              rw (k, l)
                (by_start-Keeps c m (record p { start = start }) rest ch
                  (find_start (u16 start) ch.incoming_reliable_messages))
        ]
      ]

  pub on_data_fragment-Shrinks :
      (c : Client) (m : Message) (f : Fragment) (bytes : List ℕ)
      → Gives (Shrinks bytes) (on_data_fragment o e c m f bytes)
  unfolding on_data_fragment
  on_data_fragment-Shrinks c m f bytes =
      let p = part_of o e f bytes in
      let rest = drop (o.ntoh16 f.len) bytes in
      let channel = found (get_elem? c.channels m.channel_id) in
      guarded-Shrinks c m.channel_id (o.ntoh16 f.len) bytes discarded
        (channel >>= on_channel o e c m p rest)
        (>>=-Gives (λ _. Unit) (Shrinks bytes) channel (on_channel o e c m p rest)
          (Gives-any channel)
          (λ ch t.
            Gives-map (on_channel o e c m p rest ch)
              (λ r k. Keeps-Shrinks rest bytes r (length-drop_le (o.ntoh16 f.len) bytes) k)
              (on_channel-Keeps c m p rest ch)))
