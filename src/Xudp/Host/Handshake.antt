-- ===== src/Xudp/Host/Handshake.antt =====
-- A connection between two hosts, by the messages CONNECT and VALIDATE_CONNECT
-- (src/gekkota/gekkota_xudp.c).
use gekkota.Base.{length-replicate}
use gekkota.Base.{ℕ, ◌<◌, ◌≤◌, ◌≡◌, refl, ap, ◌∙◌, arith, List, Option, none, some, Bool, true}
use gekkota.Base.{NetOrder, length, eq→==_true}
use gekkota.Xudp.Types.{Client, Outgoing, Connect, EndPoint, ClientState, in_state}
use gekkota.Xudp.Event.{event_new}
use gekkota.Xudp.Acknowledge.{dispose_acknowledged_message, dispose_found, take_acknowledged}
use gekkota.Xudp.Host.Notify.{Service, notify_connect, with_connect_event}
use gekkota.Xudp.Host.Connect.{
  Settings, clamped_mtu, empty_channel, connect_body, accepting_client, validate_body,
}
use gekkota.Xudp.Host.Accept.{processed, agrees, validated, on_validate_connect, smaller_of}

dispose-mtu :
    (c : Client) (number channel_id : ℕ)
    → (dispose_acknowledged_message c number channel_id).0.mtu ≡ c.mtu
unfolding dispose_acknowledged_message dispose_found
dispose-mtu c number channel_id =
    by_result (take_acknowledged number channel_id c.sent_reliable_messages)
  where
    by_result : (r : Option (Outgoing × List Outgoing)) → (dispose_found c r).0.mtu ≡ c.mtu
    by_result none = refl
    by_result (some (m, ms)) = refl

clamped_mtu-within : (mtu : ℕ) → 576 ≤ mtu → mtu ≤ 4096 → clamped_mtu mtu ≡ mtu
clamped_mtu-within mtu h k = ground arith

smaller_of_self : (n : ℕ) → smaller_of n n ≡ n
smaller_of_self n = ground arith

-- The numbers of a client that a CONNECT message carries.
pub record Carried (c : Client) : Type 0 where
  pub id_small : c.local_client_id < 65536
  pub mtu_least : 576 ≤ c.mtu
  pub mtu_most : c.mtu ≤ 4096
  pub interval_small : c.packet_throttle_interval < 4294967296
  pub acceleration_small : c.packet_throttle_acceleration < 4294967296
  pub deceleration_small : c.packet_throttle_deceleration < 4294967296

module _ (o : NetOrder) (mine theirs : Settings) (endpoint : EndPoint) (c d : Client)
    (k : Carried c) where
  -- The other side's client, and the body of its answer.
  unfoldable pub accepted : Client
  accepted = accepting_client o theirs d endpoint (connect_body o mine c)

  unfoldable pub answer : Connect
  answer = validate_body o theirs accepted (connect_body o mine c)

  accepted-mtu : accepted.mtu ≡ c.mtu
  unfolding accepted accepting_client connect_body
  accepted-mtu =
      ap clamped_mtu (o.ntoh16-hton16 c.mtu (omega (arith, k.mtu_most)))
      ∙ clamped_mtu-within c.mtu k.mtu_least k.mtu_most

  twice : (n : ℕ) → n < 4294967296 → o.ntoh32 (o.hton32 (o.ntoh32 (o.hton32 n))) ≡ n
  twice n h = ap (λ t. o.ntoh32 (o.hton32 t)) (o.ntoh32-hton32 n h) ∙ o.ntoh32-hton32 n h

  answer-agrees : agrees o c answer ≡ true
  unfolding agrees answer accepted validate_body accepting_client connect_body
  answer-agrees =
      rw
        (
          eq→==_true (length c.channels) (length c.channels) refl,
          eq→==_true _ _ (twice c.packet_throttle_interval k.interval_small),
          eq→==_true _ _ (twice c.packet_throttle_acceleration k.acceleration_small),
          eq→==_true _ _ (twice c.packet_throttle_deceleration k.deceleration_small),
          eq→==_true c.compression_level c.compression_level refl,
        )
        refl

  -- The client that the answer validates.
  abbrev joined : Client
  joined = record (validated o c answer) { state = ClientState.connected }

  on_validate_connect-answer :
      (s : Service) (reconfigure : Bool)
      → s.wants_event ≡ true
      → s.alloc_event ≡ true
      → c.state ≡ ClientState.connecting
      → ((on_validate_connect o s reconfigure c answer).code ≡ processed)
        × ((on_validate_connect o s reconfigure c answer).client ≡ joined)
  unfolding on_validate_connect notify_connect with_connect_event event_new
  on_validate_connect-answer s reconfigure wants alloc state =
      let open_state = ap (λ t. in_state t ClientState.connecting) state in
      (
        simp (open_state, answer-agrees, wants, alloc),
        simp (open_state, answer-agrees, wants, alloc),
      )

  validated-mtu : (validated o c answer).mtu ≡ c.mtu
  unfolding validated answer validate_body
  validated-mtu =
      let same : o.ntoh16 (o.hton16 accepted.mtu) ≡ c.mtu =
        o.ntoh16-hton16 accepted.mtu (omega (arith, accepted-mtu, k.mtu_most)) ∙ accepted-mtu in
      ap (λ t. smaller_of (clamped_mtu t) (dispose_acknowledged_message c 1 255).0.mtu) same
      ∙ ap (λ t. smaller_of t (dispose_acknowledged_message c 1 255).0.mtu)
          (clamped_mtu-within c.mtu k.mtu_least k.mtu_most)
      ∙ ap (λ t. smaller_of c.mtu t) (dispose-mtu c 1 255)
      ∙ smaller_of_self c.mtu

  -- What both sides have when the answer arrived.
  unfoldable pub Joined : Client → Type 0
  Joined c' =
      (c'.state ≡ ClientState.connected)
      × (c'.mtu ≡ c.mtu)
      × (accepted.mtu ≡ c.mtu)
      × (c'.remote_client_id ≡ d.local_client_id)
      × (accepted.remote_client_id ≡ c.local_client_id)
      × (length accepted.channels ≡ length c.channels)

  joined-Joined : d.local_client_id < 65536 → Joined joined
  unfolding Joined validated answer validate_body accepted accepting_client connect_body
  joined-Joined small = (
    refl,
    validated-mtu,
    accepted-mtu,
    o.ntoh16-hton16 d.local_client_id small,
    o.ntoh16-hton16 c.local_client_id k.id_small,
    length-replicate (length c.channels) empty_channel,
  )

-- A client that is connecting, with an mtu from 576 to 4096 and numbers of the messages' widths,
-- gets, for its own CONNECT message, an answer that it accepts: when it asks for an event and the
-- event can be allocated, its handler returns 1 and leaves it connected, both sides have the mtu
-- that it had and each the other's client number, and the other side has as many channels.
pub on_validate_connect-handshake :
    (o : NetOrder) (mine theirs : Settings) (endpoint : EndPoint) (c d : Client) (s : Service)
    (reconfigure : Bool) (k : Carried c)
    → d.local_client_id < 65536
    → s.wants_event ≡ true
    → s.alloc_event ≡ true
    → c.state ≡ ClientState.connecting
    → ((on_validate_connect o s reconfigure c (answer o mine theirs endpoint c d k)).code
        ≡ processed)
      × Joined o mine theirs endpoint c d k
          (on_validate_connect o s reconfigure c (answer o mine theirs endpoint c d k)).client
on_validate_connect-handshake o mine theirs endpoint c d s reconfigure k small wants alloc state =
    let (code, client) =
      on_validate_connect-answer o mine theirs endpoint c d k s reconfigure wants alloc state in
    (code, rw (client) (joined-Joined o mine theirs endpoint c d k small))
