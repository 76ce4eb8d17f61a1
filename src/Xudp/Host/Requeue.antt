-- ===== src/Xudp/Host/Requeue.antt =====
-- What `_gekkota_xudp_check_for_timeouts` (src/gekkota/gekkota_xudp.c) makes of the messages sent.
use gekkota.Base.{ℕ, ◌≡◌, refl, sym, ◌∙◌, List, [], ◌∷◌, ◌++◌, append_assoc, append-nil, Bool}
use gekkota.Base.{Bool-cases, inl, inr, if◌then◌else◌}
use mathlib.Core.Path.{subst}
use gekkota.Xudp.Types.{Client, Outgoing}
use gekkota.Xudp.Host.Notify.{Service, Notice}
use gekkota.Xudp.Host.Timeouts.{no_timeout, timed_out, is_due, is_lost, earliest, requeue, doubled}
use gekkota.Xudp.Host.Timeouts.{check_messages, check_for_timeouts}

-- The messages whose timeout is over, and the others, in order.
unfoldable pub due : (now : ℕ) → List Outgoing → List Outgoing
due now [] = []
due now (m ∷ ms) = let rest = due now ms in if is_due now m then m ∷ rest else rest

unfoldable pub waiting : (now : ℕ) → List Outgoing → List Outgoing
waiting now [] = []
waiting now (m ∷ ms) = let rest = waiting now ms in if is_due now m then rest else m ∷ rest

-- The messages with their timeouts doubled, the last first, before others.
unfoldable pub doubled_onto : List Outgoing → List Outgoing → List Outgoing
doubled_onto [] queue = queue
doubled_onto (m ∷ ms) queue = doubled_onto ms (doubled m ∷ queue)

no_timeout_injective : {c c' : Client} → no_timeout c ≡ no_timeout c' → c ≡ c'
no_timeout_injective h = cc

timed_out_ne : {n : Notice} {c : Client} → timed_out n ≡ no_timeout c → ⊥
timed_out_ne h = cc

module _ (s : Service) (reconfigure : Bool) (now : ℕ) where
  check_messages-requeues :
      (kept ms : List Outgoing) (c c' : Client)
      → check_messages s reconfigure now kept ms c ≡ no_timeout c'
      → (c'.sent_reliable_messages ≡ kept ++ waiting now ms)
        × (c'.outgoing_reliable_messages ≡ doubled_onto (due now ms) c.outgoing_reliable_messages)
  unfolding check_messages requeue due waiting doubled_onto
  check_messages-requeues kept [] c c' h =
      subst
        (λ t.
          (t.sent_reliable_messages ≡ kept ++ [])
          × (t.outgoing_reliable_messages ≡ c.outgoing_reliable_messages))
        (no_timeout_injective h) (sym (append-nil kept), refl)
  check_messages-requeues kept (m ∷ ms) c c' h = elim (Bool-cases (is_due now m)) [
    | inr e ↦
        let (sent, outgoing) =
          check_messages-requeues (kept ++ (m ∷ [])) ms
            (record c { earliest_timeout = c.earliest_timeout }) c' (rw (e) at h) in
        rw (e) (sent ∙ append_assoc kept (m ∷ []) (waiting now ms), outgoing)
    | inl e ↦ elim (Bool-cases (is_lost now (earliest m c.earliest_timeout) m)) [
      | inl l ↦ absurd (timed_out_ne (rw (e, l) at h))
      | inr l ↦
          let (sent, outgoing) =
            check_messages-requeues kept ms
              (requeue m kept ms (record c { earliest_timeout = earliest m c.earliest_timeout })) c'
              (rw (e, l) at h) in
          rw (e) (sent, outgoing)
    ]
  ]

-- When no connection is given up, the messages sent whose timeout is not over stay, in order, and
-- those whose timeout is over go before the outgoing reliable messages with their timeouts doubled
-- and in reverse order.
pub check_for_timeouts-requeues :
    (s : Service) (reconfigure : Bool) (now : ℕ) (c c' : Client)
    → check_for_timeouts s reconfigure now c ≡ no_timeout c'
    → (c'.sent_reliable_messages ≡ waiting now c.sent_reliable_messages)
      × (c'.outgoing_reliable_messages
          ≡ doubled_onto (due now c.sent_reliable_messages) c.outgoing_reliable_messages)
unfolding check_for_timeouts
check_for_timeouts-requeues s reconfigure now c c' h =
    check_messages-requeues s reconfigure now [] c.sent_reliable_messages c c' h
