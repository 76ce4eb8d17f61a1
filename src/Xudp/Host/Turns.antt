-- ===== src/Xudp/Host/Turns.antt =====
-- A client's turn in `_gekkota_xudp_send` (src/gekkota/gekkota_xudp.c): what it transmits.
use gekkota.Base.{ℕ, ◌+◌, ◌<◌, ◌≤◌, ◌≡◌, refl, arith, List, [], ◌∷◌, Option, some, Bool, false}
use gekkota.Base.{
  Bool-cases, inl, inr, NetOrder, length, Run, done, fault, stuck, ◌>>=◌, Result, not, ◌&&◌, ◌||◌,
}
use gekkota.Base.{if◌then◌else◌, is_empty}
use gekkota.Xudp.Types.{Client, ClientState, in_state, is_set}
use gekkota.Xudp.Clock.{time_compare, is_less}
use gekkota.Xudp.Client.Outgoing.{ping}
use gekkota.Xudp.Host.Datagram.{Datagram, empty_datagram}
use gekkota.Xudp.Host.Sending.{Filled, send_acknowledgements, send_reliable, fill_unreliable}
use gekkota.Xudp.Host.Notify.{Service}
use gekkota.Xudp.Host.Timeouts.{Checked, no_timeout, timed_out, check_messages, check_for_timeouts}
use gekkota.Xudp.Host.Bounds.{Fits}
use gekkota.Xudp.Host.Limits.{total, Counts}
use gekkota.Xudp.Host.Filling.{
  Limited, send_acknowledgements-Limited, send_reliable-Limited, fill_unreliable-Limited,
}
use gekkota.Xudp.Host.Flush.{
  Transmission, Turn, goes_on, ends, Call, transmission, transmitted, after_unreliable, Leave,
}
use gekkota.Xudp.Host.Flush.{
  unreliable_turn, wants_ping, pinged, reliable_turn, after_check, timeout_turn, client_turn,
}
use gekkota.Xudp.Host.Keeping.{HasMtu, check_messages-HasMtu, PingKeeps, ping-PingKeeps}
use gekkota.Xudp.Host.Staying.{
  Stays, CheckedStays, check_messages-Stays, PingStays, ping-PingStays, send_acknowledgements-Stays,
  send_reliable-Stays, fill_unreliable-Stays,
}

-- A transmission within the mtu and the array of buffers.
unfoldable pub IsShort : (mtu : ℕ) → Transmission → Type 0
IsShort mtu t = (t.header_length + total t.buffers ≤ mtu) × (length t.buffers + 1 ≤ 65)

-- All are.
unfoldable pub AllShort : (mtu : ℕ) → List Transmission → Type 0
AllShort mtu [] = Unit
AllShort mtu (t ∷ ts) = IsShort mtu t × AllShort mtu ts

-- A turn that comes to an end without a fault, and all that it transmits is within the mtu.
unfoldable pub IsSound : (mtu : ℕ) → Run Turn → Type 0
unfolding AllShort
IsSound mtu (done (goes_on c send ts)) = AllShort mtu ts
IsSound mtu (done (ends c reconfigure event failure)) = Unit
IsSound mtu fault = ⊥
IsSound mtu stuck = ⊥

module _ (o : NetOrder) (call : Call) (transmit : Transmission → Bool) (mtu : ℕ) where
  transmission-IsShort :
      (c : Client) (d : Datagram)
      → Fits mtu d
      → Counts d
      → IsShort mtu (transmission o call transmit c d)
  unfolding transmission IsShort Fits Counts
  transmission-IsShort c d (size, messages, buffers) counts =
      elim (Bool-cases (is_set d.header_flags 0)) [
        | inl e ↦ rw (e) (omega arith, buffers)
        | inr e ↦ rw (e) (omega arith, buffers)
      ]

  transmitted-IsSound :
      (reconfigure send : Bool) (c : Client) (d : Datagram)
      → Fits mtu d
      → Counts d
      → IsSound mtu (done (transmitted o call transmit reconfigure send c d))
  unfolding transmitted IsSound AllShort
  transmitted-IsSound reconfigure send c d fits counts = elim (Bool-cases (is_empty d.messages)) [
    | inl e ↦ rw (e) tt
    | inr e ↦ elim (Bool-cases (transmit (transmission o call transmit c d))) [
      | inl k ↦ rw (e, k) (transmission-IsShort c d fits counts, tt)
      | inr k ↦ rw (e, k) tt
    ]
  ]

  module _ (small : mtu < 65536) (s : Service) (reconfigure : Bool) (leave : Leave) where
    after_unreliable-IsSound :
        (f : Filled)
        → Limited mtu f
        → Stays f.client
        → IsSound mtu (after_unreliable o call transmit s reconfigure leave f)
    unfolding after_unreliable Limited
    after_unreliable-IsSound f (own, fits, counts) h =
        rw (h) (transmitted-IsSound reconfigure f.more f.client f.datagram fits counts)

    unreliable_turn-IsSound :
        (send : Bool) (c : Client) (d : Datagram)
        → c.mtu ≡ mtu
        → Stays c
        → Fits mtu d
        → Counts d
        → IsSound mtu (unreliable_turn o call transmit s reconfigure leave send c d)
    unfolding unreliable_turn
    unreliable_turn-IsSound send c d own h fits counts =
        elim (Bool-cases (is_empty c.outgoing_unreliable_messages)) [
          | inl e ↦ rw (e) (transmitted-IsSound reconfigure send c d fits counts)
          | inr e ↦ rw (e) (
              after_unreliable-IsSound (fill_unreliable c.outgoing_unreliable_messages c d)
                (fill_unreliable-Limited mtu small c.outgoing_unreliable_messages c d own fits
                  counts)
                (fill_unreliable-Stays c.outgoing_unreliable_messages c d h))
        ]

    after_ping :
        (f : Filled) (r : Run (Option Client × Result (Unit {0})))
        → PingKeeps mtu f.client r
        → PingStays f.client r
        → Fits mtu f.datagram
        → Counts f.datagram
        → IsSound mtu (
            r >>= λ t.
            let g = send_reliable call.now (pinged t.0 f.client) f.datagram in
            unreliable_turn o call transmit s reconfigure leave g.more g.client g.datagram)
    unfolding PingKeeps PingStays Limited pinged
    after_ping f (done (c, r)) own h fits counts =
        let c' = pinged c f.client in
        let (own', fits', counts') =
          send_reliable-Limited mtu small call.now c' f.datagram own fits counts in
        unreliable_turn-IsSound (send_reliable call.now c' f.datagram).more
          (send_reliable call.now c' f.datagram).client
          (send_reliable call.now c' f.datagram).datagram own'
          (send_reliable-Stays call.now c' f.datagram h) fits' counts'
    after_ping f fault k h fits counts = absurd k
    after_ping f stuck k h fits counts = absurd k

    reliable_turn-IsSound :
        (send : Bool) (c : Client) (d : Datagram)
        → c.mtu ≡ mtu
        → Stays c
        → Fits mtu d
        → Counts d
        → IsSound mtu (reliable_turn o call transmit s reconfigure leave send c d)
    unfolding reliable_turn Limited
    reliable_turn-IsSound send c d own h fits counts =
        let f = send_reliable call.now c d in
        let (own', fits', counts') = send_reliable-Limited mtu small call.now c d own fits counts in
        let h' = send_reliable-Stays call.now c d h in
        elim (Bool-cases (is_empty c.outgoing_reliable_messages)) [
          | inl e ↦ rw (e) (unreliable_turn-IsSound send c d own h fits counts)
          | inr e ↦
              elim (Bool-cases
                (wants_ping o call transmit s reconfigure leave f.client f.datagram)) [
                  | inl k ↦
                      rw (e, k)
                        (after_ping f (ping o call.alloc_ping (some f.client))
                          (ping-PingKeeps o call.alloc_ping f.client mtu own')
                          (ping-PingStays o call.alloc_ping f.client h') fits' counts')
                  | inr k ↦
                      rw (e, k)
                        (unreliable_turn-IsSound f.more f.client f.datagram own' h' fits' counts')
                ]
        ]

    after_check-IsSound :
        (send : Bool) (d : Datagram) (k : Checked)
        → HasMtu mtu k
        → CheckedStays k
        → Fits mtu d
        → Counts d
        → IsSound mtu (after_check o call transmit s reconfigure leave send d k)
    unfolding after_check HasMtu CheckedStays IsSound
    after_check-IsSound send d (no_timeout c) own h fits counts =
        reliable_turn-IsSound send c d own h fits counts
    after_check-IsSound send d (timed_out n) own h fits counts = tt

    timeout_turn-IsSound :
        (send : Bool) (c : Client) (d : Datagram)
        → c.mtu ≡ mtu
        → Stays c
        → Fits mtu d
        → Counts d
        → IsSound mtu (timeout_turn o call transmit s reconfigure leave send c d)
    unfolding timeout_turn check_for_timeouts
    timeout_turn-IsSound send c d own h fits counts =
        elim (Bool-cases (
          call.check
          && not (is_empty c.sent_reliable_messages)
          && not (is_less (time_compare call.now c.next_timeout)))) [
            | inl e ↦ rw (e) (
                after_check-IsSound send d
                  (check_messages s reconfigure call.now [] c.sent_reliable_messages c)
                  (check_messages-HasMtu s reconfigure call.now [] c.sent_reliable_messages c mtu
                    own)
                  (check_messages-Stays s reconfigure call.now [] c.sent_reliable_messages c h) fits
                  counts)
            | inr e ↦ rw (e) (reliable_turn-IsSound send c d own h fits counts)
          ]

-- The turn of a client that does not wait to disconnect, and whose mtu is at least 12 bytes and of
-- 16 bits, comes to an end without a fault, whatever its queues and the transmissions do, and each
-- datagram that it transmits, the header and all buffers, is no longer than the mtu and has 65
-- buffers at most.
pub client_turn-IsSound :
    (o : NetOrder) (call : Call) (transmit : Transmission → Bool) (s : Service) (reconfigure : Bool)
    (leave : Leave) (send : Bool) (c : Client)
    → 12 ≤ c.mtu
    → c.mtu < 65536
    → in_state c.state ClientState.delaying_disconnect ≡ false
    → IsSound c.mtu (client_turn o call transmit s reconfigure leave send c)
unfolding client_turn IsSound AllShort Fits Counts total Limited
client_turn-IsSound o call transmit s reconfigure leave send c least small h =
    let d = empty_datagram (if c.is_multicast_group_member then 2 else 0) in
    let empty : Fits c.mtu d = (least, omega arith, omega arith) in
    let (own, fits, counts) =
      send_acknowledgements-Limited c.mtu small o c d refl empty (omega arith) in
    elim (Bool-cases
      (in_state c.state ClientState.disconnected || in_state c.state ClientState.zombie)) [
        | inl e ↦ rw (e) tt
        | inr e ↦ elim (Bool-cases (is_empty c.acknowledgements)) [
          | inl k ↦
              rw (e, k)
                (timeout_turn-IsSound o call transmit c.mtu small s reconfigure leave send c d refl
                  h empty (omega arith))
          | inr k ↦
              rw (e, k)
                (timeout_turn-IsSound o call transmit c.mtu small s reconfigure leave
                  (send_acknowledgements o c d).more (send_acknowledgements o c d).client
                  (send_acknowledgements o c d).datagram own (send_acknowledgements-Stays o c d h)
                  fits counts)
        ]
      ]
