-- ===== src/Xudp/Host/Unanswered.antt =====
-- What becomes of a message with data in `_gekkota_xudp_receive` (src/gekkota/gekkota_xudp.c).
use gekkota.Base.{
  ℕ, zero, suc, ◌<◌, ◌≡◌, ◌≢◌, refl, arith, List, [], ◌∷◌, Option, none, some, Bool, true, false,
  Bool-cases, inl, inr,
}
use gekkota.Base.{
  Result, ok, err, NetOrder, done, found, Ends, >>=-Ends, get_elem?, length, ltb, not,
}
use gekkota.Base.{if◌then◌else◌}
use gekkota.Packet.{Object}
use gekkota.Xudp.Types.{Client, Channel, Message, Packet, EndPoint, ClientState, in_state}
use gekkota.Xudp.Client.Incoming.{
  queue_incoming_message, queued_client, queue_on_channel, new_incoming,
}
use gekkota.Xudp.Host.Accept.{Code, discarded, processed, failed}
use gekkota.Xudp.Host.Progress.{and_true}
use gekkota.Xudp.Host.Data.{
  Receipt, Arrived, takes_data, code_of, queue_packet, queue_data, on_reliable_data,
  on_unreliable_data, as_packet,
}

-- A result that the loop does not acknowledge: 0 or -1, with the acknowledgements as they were.
unfoldable pub IsUnanswered : Client → Arrived → Type 0
IsUnanswered c r = (r.code ≢ processed) × (r.client.acknowledgements ≡ c.acknowledgements)

discarded_ne : discarded ≡ processed → ⊥
discarded_ne h = cc

failed_ne : failed ≡ processed → ⊥
failed_ne h = cc

code_of_ne : (b : Bool) → code_of b ≡ processed → ⊥
unfolding code_of
code_of_ne true h = discarded_ne h
code_of_ne false h = failed_ne h

get-Ends :
    {A : Type 0} (i : ℕ) (xs : List A) → i < length xs → Ends ⊥ (λ _. Unit) (found (get_elem? xs i))
get-Ends i [] h = absurd (omega arith)
get-Ends zero (x ∷ xs) h = tt
get-Ends (suc i) (x ∷ xs) h = get-Ends i xs (omega arith)

module _ (o : NetOrder) where
  queued_client-acknowledgements :
      (c : Client) (channel_id : ℕ) (r : Option Channel)
      → (queued_client o c channel_id r).0.acknowledgements ≡ c.acknowledgements
  unfolding queued_client
  queued_client-acknowledgements c channel_id none = refl
  queued_client-acknowledgements c channel_id (some ch) = refl

  queue_incoming_message-Ends :
      (alloc : Bool) (c : Client) (m : Message) (p : Packet) (count : ℕ) (from : EndPoint)
      → m.channel_id < length c.channels
      → Ends ⊥
          (λ r. r.0.acknowledgements ≡ c.acknowledgements)
          (queue_incoming_message o alloc c m p count from)
  unfolding queue_incoming_message
  queue_incoming_message-Ends alloc c m p count from there =
      elim (Bool-cases (in_state c.state ClientState.delaying_disconnect)) [
        | inl e ↦ rw (e) refl
        | inr e ↦ rw (e) (
            >>=-Ends ⊥ (λ _. Unit) (λ r. r.0.acknowledgements ≡ c.acknowledgements)
              (found (get_elem? c.channels m.channel_id)) _ (get-Ends m.channel_id c.channels there)
              (λ ch t.
                queued_client-acknowledgements c m.channel_id
                  (queue_on_channel o alloc ch (new_incoming o m p count from))))
      ]

  module _ (e : Receipt) where
    queue_packet-IsUnanswered :
        (c : Client) (m : Message) (rest : List ℕ) (p : Result Object)
        → m.channel_id < length c.channels
        → Ends ⊥ (IsUnanswered c) (queue_packet o e c m rest p)
    unfolding queue_packet IsUnanswered
    queue_packet-IsUnanswered c m rest (err x) there = (failed_ne, refl)
    queue_packet-IsUnanswered c m rest (ok p) there =
        >>=-Ends ⊥ (λ r. r.0.acknowledgements ≡ c.acknowledgements) (IsUnanswered c)
          (queue_incoming_message o e.alloc_message c m (as_packet p) 0 e.sender) _
          (queue_incoming_message-Ends e.alloc_message c m (as_packet p) 0 e.sender there)
          (λ r same. (code_of_ne r.1, same))

    queue_data-IsUnanswered :
        (c : Client) (m : Message) (bytes : List ℕ) (len flags : ℕ) (other : Code)
        → (other ≡ processed → ⊥)
        → Ends ⊥ (IsUnanswered c) (
            if not (takes_data c m.channel_id)
            then done (record { client = c; rest = bytes; code = other })
            else if ltb (length bytes) len
            then done (record { client = c; rest = []; code = discarded })
            else queue_data o e c m bytes len flags)
    unfolding queue_data IsUnanswered takes_data
    queue_data-IsUnanswered c m bytes len flags other ne =
        elim (Bool-cases (takes_data c m.channel_id)) [
          | inr k ↦ rw (k) (ne, refl)
          | inl k ↦ elim (Bool-cases (ltb (length bytes) len)) [
            | inl l ↦ rw (k, l) (discarded_ne, refl)
            | inr l ↦ rw (k, l) (queue_packet-IsUnanswered c m _ _ (within (and_true _ _ k).0))
          ]
        ]
      where
        within : ltb m.channel_id (length c.channels) ≡ true → m.channel_id < length c.channels
        within h = ground arith

-- The handlers of RELIABLE_DATA and of UNRELIABLE_DATA messages come to an end without a fault,
-- whatever the message and the client, and their results are never 1, also when the message is
-- queued; the client's acknowledgements stay as they were.
pub on_reliable_data-IsUnanswered :
    (o : NetOrder) (e : Receipt) (c : Client) (m : Message) (len : ℕ) (bytes : List ℕ)
    → Ends ⊥ (IsUnanswered c) (on_reliable_data o e c m len bytes)
      × Ends ⊥ (IsUnanswered c) (on_unreliable_data o e c m len bytes)
unfolding on_reliable_data on_unreliable_data
on_reliable_data-IsUnanswered o e c m len bytes = (
  queue_data-IsUnanswered o e c m bytes (o.ntoh16 len) 1 failed failed_ne,
  queue_data-IsUnanswered o e c m bytes (o.ntoh16 len) 0 discarded discarded_ne,
)
