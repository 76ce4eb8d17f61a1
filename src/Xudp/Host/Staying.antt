-- ===== src/Xudp/Host/Staying.antt =====
-- What the steps of a client's turn in `_gekkota_xudp_send` (src/gekkota/gekkota_xudp.c) keep: that
-- the client does not wait to disconnect.
use gekkota.Base.{ℕ, ◌≡◌, List, [], ◌∷◌, ◌++◌, Option, none, some, Bool, true, false}
use gekkota.Base.{Bool-cases, inl, inr, NetOrder, Run, done, fault, stuck, ◌>>=◌, Result}
use gekkota.Base.{refl, is_empty, is_some}
use gekkota.Xudp.Host.Datagram.{Datagram, add_message}
use gekkota.Xudp.Host.Sending
use gekkota.Xudp.Host.Bounds.{reliable_verdict-cases}
use gekkota.Xudp.Types.{
  Client, ClientState, in_state, Acknowledgement, Packet, Outgoing, MessageType, Body,
}
use gekkota.Xudp.Client.Outgoing.{
  ping, queue_outgoing_message, numbered, add_outgoing, client_message,
}
use gekkota.Xudp.Host.Notify.{Service}
use gekkota.Xudp.Host.Timeouts.{
  Checked, no_timeout, timed_out, check_messages, is_due, is_lost, earliest, requeue,
}
use gekkota.Xudp.Host.Flush.{pinged}

-- The client does not wait to disconnect.
abbrev pub Stays : Client → Type 0
Stays c = in_state c.state ClientState.delaying_disconnect ≡ false

-- After checking for timeouts.
unfoldable pub CheckedStays : Checked → Type 0
CheckedStays (no_timeout c) = Stays c
CheckedStays (timed_out n) = Unit

pub check_messages-Stays :
    (s : Service) (reconfigure : Bool) (now : ℕ) (kept ms : List Outgoing) (c : Client)
    → Stays c
    → CheckedStays (check_messages s reconfigure now kept ms c)
unfolding check_messages CheckedStays requeue
check_messages-Stays s reconfigure now kept [] c h = h
check_messages-Stays s reconfigure now kept (m ∷ ms) c h = elim (Bool-cases (is_due now m)) [
  | inr e ↦ rw (e) (check_messages-Stays s reconfigure now (kept ++ (m ∷ [])) ms c h)
  | inl e ↦ elim (Bool-cases (is_lost now (earliest m c.earliest_timeout) m)) [
    | inl l ↦ rw (e, l) tt
    | inr l ↦
        rw (e, l)
          (check_messages-Stays s reconfigure now kept ms
            (requeue m kept ms (record c { earliest_timeout = earliest m c.earliest_timeout })) h)
  ]
]

-- After a ping.
unfoldable pub PingStays : Client → Run (Option Client × Result (Unit {0})) → Type 0
unfolding pinged
PingStays old (done (c, r)) = Stays (pinged c old)
PingStays old fault = Unit
PingStays old stuck = Unit

pub ping-PingStays :
    (o : NetOrder) (alloc : Bool) (c : Client) → Stays c → PingStays c (ping o alloc (some c))
unfolding ping PingStays queue_outgoing_message numbered add_outgoing pinged
ping-PingStays o alloc c h = elim (Bool-cases (in_state c.state ClientState.connected)) [
  | inr e ↦ rw (e) h
  | inl e ↦ elim (Bool-cases c.is_multicast_group_member) [
    | inl k ↦ rw (e, k) h
    | inr k ↦ rw (e, k) (by_alloc (record c { is_multicast_group_member = false }) h alloc)
  ]
]
  where
    by_alloc :
        (d : Client)
        → Stays d
        → (alloc : Bool)
        → PingStays d (
            queue_outgoing_message o alloc d
              (client_message o MessageType.ping 1 Body.no_body)
              none
              0
              0
            >>= λ r. done (some r.0, r.1))
    by_alloc d h true = h
    by_alloc d h false = h

fill_acknowledgements-Stays :
    (o : NetOrder) (queue : List Acknowledgement) (c : Client) (d : Datagram)
    → Stays c
    → Stays (Sending.fill_acknowledgements o queue c d).client
unfolding Sending.fill_acknowledgements Sending.acknowledge_one
fill_acknowledgements-Stays o [] c d h = h
fill_acknowledgements-Stays o (a ∷ queue) c d h =
    elim (Bool-cases (Sending.is_full_for_acknowledgement c d)) [
      | inl e ↦ rw (e) h
      | inr e ↦ rw (e) (
          fill_acknowledgements-Stays o queue (Sending.acknowledge_one a c)
            (add_message 10 (Sending.acknowledge_message o a) d) one)
    ]
  where
    one : Stays (Sending.acknowledge_one a c)
    one = elim (Bool-cases (Sending.is_disconnect a.message.message_type)) [
      | inl e ↦ rw (e) refl
      | inr e ↦ rw (e) h
    ]

pub send_acknowledgements-Stays :
    (o : NetOrder) (c : Client) (d : Datagram)
    → Stays c
    → Stays (Sending.send_acknowledgements o c d).client
unfolding Sending.send_acknowledgements
send_acknowledgements-Stays o c d h = fill_acknowledgements-Stays o c.acknowledgements c d h

fill_reliable-Stays :
    (now : ℕ) (queue : List Outgoing) (c : Client) (d : Datagram)
    → Stays c
    → Stays (Sending.fill_reliable now queue c d).client
unfolding Sending.fill_reliable Sending.stop_reliable Sending.move_reliable Sending.started
fill_reliable-Stays now [] c d h = h
fill_reliable-Stays now (m ∷ queue) c d h = elim (reliable_verdict-cases m c d) [
  | inl (more, e) ↦ rw (e) h
  | inr (e, g) ↦ rw (e) (
      fill_reliable-Stays now queue (Sending.move_reliable now m c) (Sending.put_reliable m d)
        moved)
]
  where
    moved : Stays (Sending.move_reliable now m c)
    moved = elim (Bool-cases (is_empty c.sent_reliable_messages)) [
      | inl e ↦ rw (e) h
      | inr e ↦ rw (e) h
    ]

pub send_reliable-Stays :
    (now : ℕ) (c : Client) (d : Datagram) → Stays c → Stays (Sending.send_reliable now c d).client
unfolding Sending.send_reliable
send_reliable-Stays now c d h = fill_reliable-Stays now c.outgoing_reliable_messages c d h

throttled-Stays : (p : Option Packet) (c : Client) → Stays c → Stays (Sending.throttled p c)
unfolding Sending.throttled
throttled-Stays none c h = h
throttled-Stays (some p) c h = h

move_unreliable-Stays : (m : Outgoing) (c : Client) → Stays c → Stays (Sending.move_unreliable m c)
unfolding Sending.move_unreliable
move_unreliable-Stays m c h = elim (Bool-cases (is_some m.packet)) [
  | inl e ↦ rw (e) h
  | inr e ↦ rw (e) h
]

pub fill_unreliable-Stays :
    (queue : List Outgoing) (c : Client) (d : Datagram)
    → Stays c
    → Stays (Sending.fill_unreliable queue c d).client
unfolding Sending.fill_unreliable
fill_unreliable-Stays [] c d h = h
fill_unreliable-Stays (m ∷ queue) c d h =
    let kept = throttled-Stays m.packet c h in
    elim (Bool-cases (Sending.is_full_for_unreliable m c d)) [
      | inl e ↦ rw (e) h
      | inr e ↦ elim (Bool-cases (Sending.is_dropped m.packet (Sending.throttled m.packet c))) [
        | inl k ↦ rw (e, k) (fill_unreliable-Stays queue (Sending.throttled m.packet c) d kept)
        | inr k ↦
            rw (e, k)
              (fill_unreliable-Stays queue
                (Sending.move_unreliable m (Sending.throttled m.packet c))
                (Sending.put_unreliable m d)
                (move_unreliable-Stays m (Sending.throttled m.packet c) kept))
      ]
    ]
