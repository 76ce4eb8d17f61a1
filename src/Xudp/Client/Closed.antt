-- ===== src/Xudp/Client/Closed.antt =====
-- What a client is after it was closed at once (src/gekkota/gekkota_xudpclient.c).
use gekkota.Base.{ℕ, [], true, false, Result, ok, ◌≡◌, refl, inl, inr, Run, done, ◌>>=◌}
use gekkota.Base.{NetOrder, ◌||◌, if◌then◌else◌, Bool-cases}
use gekkota.Xudp.Types.{Client, MessageType, ClientState, in_state}
use gekkota.Xudp.Client.Outgoing.{queue_outgoing_message, numbered}
use gekkota.Xudp.Client.Close.{Sign, nought, finished, clear_message_queues, destroy, queue_close}
use gekkota.Xudp.Client.Close.{flush_now, flushed, close_now}

-- The client is closed: it has no channels and nothing is queued.
pub IsClosed : Client → Type 0
IsClosed c =
    (c.state ≡ ClientState.disconnected)
    × (c.channels ≡ [])
    × (c.acknowledgements ≡ [])
    × (c.outgoing_reliable_messages ≡ [])
    × (c.outgoing_unreliable_messages ≡ [])
    × (c.sent_reliable_messages ≡ [])

destroy-IsClosed : (place host_mtu : ℕ) (c : Client) → IsClosed (destroy place host_mtu c)
unfolding destroy IsClosed
destroy-IsClosed place host_mtu c = (refl, refl, refl, refl, refl, refl)

module _ (o : NetOrder) (place host_mtu : ℕ) (flush : Client → Client × Sign)
    (zero_flush : (d : Client) → (flush d).1 ≡ nought) where
  queue_close_lem :
      (c : Client) (type : MessageType) (flags : ℕ)
      → (d : Client) × (queue_close o true place host_mtu flush c type flags ≡ done (d, ok tt))
  unfolding queue_close queue_outgoing_message numbered
  queue_close_lem c type flags = (_, refl)

  flush_now-IsClosed :
      (r : Run (Client × Result (Unit {0}))) (d : Client)
      → r ≡ done (d, ok tt)
      → (c' : Client) × ((r >>= λ r. done (flush_now o true place host_mtu flush r))
          ≡ done (c', finished))
        × IsClosed c'
  unfolding flush_now flushed
  flush_now-IsClosed r d e = (
    destroy place host_mtu (flush d).0,
    rw (e, zero_flush d) refl,
    destroy-IsClosed place host_mtu (flush d).0,
  )

-- Unless the client is disconnected already, and when the allocation of the message succeeds and
-- every flush returns 0, closing it at once returns 0 and leaves a client that is disconnected, has
-- no channels and has empty queues of acknowledgements, outgoing and sent reliable messages.
pub close_now-IsClosed :
    (o : NetOrder) (place host_mtu : ℕ) (flush : Client → Client × Sign) (c : Client)
    → ((d : Client) → (flush d).1 ≡ nought)
    → in_state c.state ClientState.disconnected ≡ false
    → (c' : Client) × (close_now o true place host_mtu flush c ≡ done (c', finished)) × IsClosed c'
unfolding close_now
close_now-IsClosed o place host_mtu flush c zero_flush is_not =
    elim (Bool-cases
      (in_state c.state ClientState.zombie || in_state c.state ClientState.disconnecting)) [
        | inl e ↦ (destroy place host_mtu c, rw (is_not, e) refl, destroy-IsClosed place host_mtu c)
        | inr e ↦
            let type =
              if c.is_multicast_group_member
              then MessageType.leave_multicast_group
              else MessageType.disconnect in
            let (d, queued) =
              queue_close_lem o place host_mtu flush zero_flush (clear_message_queues c) type 2 in
            let (c', ends, closed) =
              flush_now-IsClosed o place host_mtu flush zero_flush _ d queued in
            (c', rw (is_not, e) ends, closed)
      ]
