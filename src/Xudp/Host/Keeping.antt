-- ===== src/Xudp/Host/Keeping.antt =====
-- What the steps of a client's turn in `_gekkota_xudp_send` (src/gekkota/gekkota_xudp.c) keep: the
-- mtu.
use gekkota.Base.{ℕ, ◌≡◌, List, [], ◌∷◌, ◌++◌, Option, none, some, Bool, true, false}
use gekkota.Base.{Bool-cases, inl, inr, NetOrder, Run, done, fault, stuck, ◌>>=◌, Result}
use gekkota.Xudp.Types.{Client, ClientState, in_state, Outgoing, MessageType, Body}
use gekkota.Xudp.Client.Outgoing.{
  ping, queue_outgoing_message, numbered, add_outgoing, client_message,
}
use gekkota.Xudp.Host.Notify.{Service}
use gekkota.Xudp.Host.Timeouts.{
  Checked, no_timeout, timed_out, check_messages, is_due, is_lost, earliest, requeue,
}
use gekkota.Xudp.Host.Flush.{pinged}

-- Checking for timeouts leaves the mtu.
unfoldable pub HasMtu : (mtu : ℕ) → Checked → Type 0
HasMtu mtu (no_timeout c) = c.mtu ≡ mtu
HasMtu mtu (timed_out n) = Unit

pub check_messages-HasMtu :
    (s : Service) (reconfigure : Bool) (now : ℕ) (kept ms : List Outgoing) (c : Client) (mtu : ℕ)
    → c.mtu ≡ mtu
    → HasMtu mtu (check_messages s reconfigure now kept ms c)
unfolding check_messages HasMtu requeue
check_messages-HasMtu s reconfigure now kept [] c mtu own = own
check_messages-HasMtu s reconfigure now kept (m ∷ ms) c mtu own = elim (Bool-cases (is_due now m)) [
  | inr e ↦ rw (e) (check_messages-HasMtu s reconfigure now (kept ++ (m ∷ [])) ms c mtu own)
  | inl e ↦ elim (Bool-cases (is_lost now (earliest m c.earliest_timeout) m)) [
    | inl l ↦ rw (e, l) tt
    | inr l ↦
        rw (e, l)
          (check_messages-HasMtu s reconfigure now kept ms
            (requeue m kept ms (record c { earliest_timeout = earliest m c.earliest_timeout })) mtu
            own)
  ]
]

-- A ping returns and leaves the mtu.
unfoldable pub PingKeeps : (mtu : ℕ) → Client → Run (Option Client × Result (Unit {0})) → Type 0
unfolding pinged
PingKeeps mtu old (done (c, r)) = (pinged c old).mtu ≡ mtu
PingKeeps mtu old fault = ⊥
PingKeeps mtu old stuck = ⊥

pub ping-PingKeeps :
    (o : NetOrder) (alloc : Bool) (c : Client) (mtu : ℕ)
    → c.mtu ≡ mtu
    → PingKeeps mtu c (ping o alloc (some c))
unfolding ping PingKeeps queue_outgoing_message numbered add_outgoing pinged
ping-PingKeeps o alloc c mtu own = elim (Bool-cases (in_state c.state ClientState.connected)) [
  | inr e ↦ rw (e) own
  | inl e ↦ elim (Bool-cases c.is_multicast_group_member) [
    | inl k ↦ rw (e, k) own
    | inr k ↦ rw (e, k) (by_alloc (record c { is_multicast_group_member = false }) own alloc)
  ]
]
  where
    by_alloc :
        (d : Client)
        → d.mtu ≡ mtu
        → (alloc : Bool)
        → PingKeeps mtu d (
            queue_outgoing_message o alloc d
              (client_message o MessageType.ping 1 Body.no_body)
              none
              0
              0
            >>= λ r. done (some r.0, r.1))
    by_alloc d own true = own
    by_alloc d own false = own
