-- ===== src/Xudp/Host/Recede.antt =====
-- No handler goes back in a datagram (src/gekkota/gekkota_xudp.c): a round of the loop over its
-- messages changes nothing, fails or moves on.
use gekkota.Base.{
  ℕ, ◌<◌, ◌≤◌, ◌≡◌, ◌⊎◌, inl, inr, refl, arith, ap, List, Option, none, some, Bool, true, NetOrder,
}
use gekkota.Base.{
  Run, done, fault, stuck, found, Gives, >>=-Gives, Gives-map, Gives-any, get_elem?, length,
}
use gekkota.Xudp.Types.{Client, Message, MessageType, Body}
use gekkota.Xudp.Acknowledge.{Acknowledged, acknowledge}
use gekkota.Xudp.Host.Accept.{Code, discarded, processed, failed, Accepted, Handled, on_connect}
use gekkota.Xudp.Host.Data.{Arrived}
use gekkota.Xudp.Host.Handlers.{on_acknowledge}
use gekkota.Xudp.Host.Flush.{Header}
use gekkota.Xudp.Host.Receive.{Cursor, Reception, get_message_handler_args}
use gekkota.Xudp.Host.Messages.{
  World, service, receipt_at, with_handled, with_arrived, with_accepted, handled, arrived, by_body,
  by_type, accepted, to_client, handle_at, handle, acknowledged_in, acknowledge_at, after_handler,
  by_message, next_round,
}
use gekkota.Xudp.Host.Rest.{
  Shrinks, on_reliable_data-Shrinks, on_unreliable_data-Shrinks, on_unsequenced_data-Shrinks,
  on_data_fragment-Shrinks,
}
use gekkota.Xudp.Host.Advance.{remaining, Fetches, get_message_handler_args-Fetches}

module _ (o : NetOrder) (w : World) (bytes : List ℕ) where
  module _ (s : Reception) (h : Header) (client : Option ℕ) (rest : List ℕ)
      (at : s.cursor ≡ Cursor.reading h client rest) where
    abbrev Recedes {ℓ} : {B : Type ℓ} → Reception × B → Type 0
    Recedes r = remaining bytes r.0.cursor ≤ length rest

    same : remaining bytes s.cursor ≤ length rest
    same = rw (at) (omega arith)

    module _ (place : ℕ) (c : Client) (m : Message) where
      handled-Recedes : (r : Handled) → Gives Recedes (handled o w bytes s h place c m rest r)
      unfolding handled with_handled
      handled-Recedes r = same

      arrived-Recedes :
          (r : Run Arrived)
          → Gives (Shrinks rest) r
          → Gives Recedes (arrived o w bytes s h place c m rest r)
      unfolding arrived with_arrived
      arrived-Recedes (done a) k = k
      arrived-Recedes fault k = tt
      arrived-Recedes stuck k = tt

      by_body-Recedes :
          (type : MessageType) (b : Body)
          → Gives Recedes (by_body o w bytes s h place c m rest type b)
      unfolding by_body handled with_handled
      by_body-Recedes MessageType.acknowledge (Body.acknowledged number sent_time) =
          >>=-Gives (λ _. Unit {0}) Recedes
            (on_acknowledge o (service o w bytes place) s.table.reconfigure w.receipt.alloc_message
              w.flush_host w.now m.channel_id number sent_time c)
            (handled o w bytes s h place c m rest) (Gives-any _) (λ r t. handled-Recedes r)
      by_body-Recedes MessageType.validate_connect (Body.connecting k) = same
      by_body-Recedes MessageType.reliable_data (Body.reliable len) =
          arrived-Recedes _ (on_reliable_data-Shrinks o (receipt_at o w bytes rest) c m len rest)
      by_body-Recedes MessageType.unreliable_data (Body.unreliable number len) =
          arrived-Recedes _ (on_unreliable_data-Shrinks o (receipt_at o w bytes rest) c m len rest)
      by_body-Recedes MessageType.unsequenced_data (Body.unsequenced group len) =
          arrived-Recedes _
            (on_unsequenced_data-Shrinks o (receipt_at o w bytes rest) c m group len rest)
      by_body-Recedes MessageType.data_fragment (Body.fragment f) =
          arrived-Recedes _ (on_data_fragment-Shrinks o (receipt_at o w bytes rest) c m f rest)
      by_body-Recedes MessageType.configure_bandwidth (Body.bandwidth a b) = same
      by_body-Recedes MessageType.configure_throttle (Body.throttling a b d) = same
      by_body-Recedes type body = tt

      by_type-Recedes :
          (type : MessageType) → Gives Recedes (by_type o w bytes s h place c m rest type)
      unfolding by_type handled with_handled
      by_type-Recedes MessageType.disconnect = same
      by_type-Recedes MessageType.join_multicast_group = same
      by_type-Recedes MessageType.leave_multicast_group = same
      by_type-Recedes MessageType.ping = same
      by_type-Recedes type = by_body-Recedes type m.body

    with_accepted-Recedes : (r : Accepted) → Recedes (with_accepted o w bytes s h client rest r)
    unfolding with_accepted
    with_accepted-Recedes r = omega arith

    accepted-Recedes : (b : Body) → Gives Recedes (accepted o w bytes s h client rest b)
    unfolding accepted
    accepted-Recedes (Body.connecting k) =
        >>=-Gives (λ _. Unit {0}) Recedes
          (on_connect o w.settings w.alloc_channels w.receipt.alloc_message s.table.clients
            w.receipt.sender k)
          (λ r. done (with_accepted o w bytes s h client rest r)) (Gives-any _)
          (λ r t. with_accepted-Recedes r)
    accepted-Recedes body = tt

    to_client-Recedes :
        (p : Option ℕ) (m : Message) → Gives Recedes (to_client o w bytes s h p m rest)
    unfolding to_client
    to_client-Recedes none m = tt
    to_client-Recedes (some place) m =
        >>=-Gives (λ _. Unit {0}) Recedes (found (get_elem? s.table.clients place))
          (λ c. by_type o w bytes s h place c m rest m.message_type) (Gives-any _)
          (λ c t. by_type-Recedes place c m m.message_type)

    handle_at-Recedes :
        (m : Message) (type : MessageType)
        → Gives Recedes (handle_at o w bytes s h client rest m type)
    unfolding handle_at
    handle_at-Recedes m MessageType.connect = accepted-Recedes m.body
    handle_at-Recedes m type = to_client-Recedes client m

  handle-Recedes :
      (s : Reception) (k : Cursor) (m : Message)
      → s.cursor ≡ k
      → Gives (λ r. remaining bytes r.0.cursor ≤ remaining bytes s.cursor) (handle o w bytes s k m)
  unfolding handle
  handle-Recedes s Cursor.unread m e = tt
  handle-Recedes s (Cursor.reading h client rest) m e =
      Gives-map (handle_at o w bytes s h client rest m m.message_type) (λ r k. rw (e) k)
        (handle_at-Recedes s h client rest e m m.message_type)

  acknowledged_in-cursor :
      (s : Reception) (place : ℕ) (r : Client × Acknowledged)
      → (acknowledged_in o w bytes s place r).0.cursor ≡ s.cursor
  unfolding acknowledged_in
  acknowledged_in-cursor s place (c, Acknowledged.failed) = refl
  acknowledged_in-cursor s place (c, a) = refl

  acknowledge_at-cursor :
      (s : Reception) (k : Cursor) (m : Message)
      → Gives (λ r. r.0.cursor ≡ s.cursor) (acknowledge_at o w bytes s k m)
  unfolding acknowledge_at
  acknowledge_at-cursor s (Cursor.reading h (some place) rest) m =
      >>=-Gives (λ _. Unit {0}) (λ r. r.0.cursor ≡ s.cursor)
        (found (get_elem? s.table.clients place)) _ (Gives-any _)
        (λ c t.
          acknowledged_in-cursor s place
            (acknowledge o w.alloc_acknowledgement h.version h.sent_time c m))
  acknowledge_at-cursor s cursor m = tt

  after_handler-cursor :
      (m : Message) (r : Reception × Code)
      → Gives (λ q. q.0.cursor ≡ r.0.cursor) (after_handler o w bytes m r)
  unfolding after_handler
  after_handler-cursor m (s, failed) = refl
  after_handler-cursor m (s, discarded) = refl
  after_handler-cursor m (s, processed) = acknowledge_at-cursor s s.cursor m

  -- A round changes nothing and goes on, or there is less of the datagram left.
  abbrev pub Advances : Reception → Reception × Bool → Type 0
  Advances s r = (r ≡ (s, true)) ⊎ (remaining bytes r.0.cursor < remaining bytes s.cursor)

  by_message-Advances :
      (s : Reception) (r : Reception × Option Message)
      → Fetches bytes s r
      → Gives (Advances s) (by_message o w bytes r)
  unfolding by_message
  by_message-Advances s (s', none) (inl e) = inl (ap (λ t. (t.0, true)) e)
  by_message-Advances s (s', none) (inr l) = inr l
  by_message-Advances s (s', some m) (inl e) = cc
  by_message-Advances s (s', some m) (inr l) =
      >>=-Gives (λ r. remaining bytes r.0.cursor ≤ remaining bytes s'.cursor) (Advances s)
        (handle o w bytes s' s'.cursor m) (after_handler o w bytes m)
        (handle-Recedes s' s'.cursor m refl)
        (λ r k.
          Gives-map (after_handler o w bytes m r) (λ q e. inr (moved r q l k e))
            (after_handler-cursor m r))
    where
      moved :
          (r : Reception × Code) (q : Reception × Bool)
          → remaining bytes s'.cursor < remaining bytes s.cursor
          → remaining bytes r.0.cursor ≤ remaining bytes s'.cursor
          → q.0.cursor ≡ r.0.cursor
          → remaining bytes q.0.cursor < remaining bytes s.cursor
      moved r q l k e = rw (e) (omega arith)

  pub next_round-Advances : (s : Reception) → Gives (Advances s) (next_round o w bytes s)
  unfolding next_round
  next_round-Advances s =
      >>=-Gives (Fetches bytes s) (Advances s)
        (get_message_handler_args o w.protocol_id w.receipt.sender bytes s) (by_message o w bytes)
        (get_message_handler_args-Fetches o w.protocol_id w.receipt.sender bytes s)
        (λ r f. by_message-Advances s r f)
