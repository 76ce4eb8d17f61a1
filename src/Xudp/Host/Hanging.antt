-- ===== src/Xudp/Host/Hanging.antt =====
-- Whether the loop over the messages of a datagram in `_gekkota_xudp_receive`
-- (src/gekkota/gekkota_xudp.c) comes to an end.
use gekkota.Base.{
  ℕ, zero, suc, ◌<◌, ◌/◌, ◌≡◌, ◌≢◌, ◌⊎◌, inl, inr, refl, arith, ◌+◌, ◌∙◌, ap, List, none, Bool,
  true, false, Bool-cases, NetOrder,
}
use gekkota.Base.{Run, done, fault, stuck, ◌>>=◌, Gives, length, ltb, lt→ltb, ne→==_false, ◌==◌}
use gekkota.Xudp.Host.Wire.{read_header}
use gekkota.Xudp.Host.Receive.{
  Cursor, Reception, get_message_handler_args, get_at, open_datagram, open_header, opened,
}
use gekkota.Xudp.Host.Messages.{World, next_round, by_message, read_messages, is_read}
use gekkota.Xudp.Host.Advance.{remaining}
use gekkota.Xudp.Host.Recede.{Advances, next_round-Advances}

module _ (o : NetOrder) (w : World) (bytes : List ℕ) where
  -- The rest of the loop after a round.
  abbrev then_rest : ℕ → Reception × Bool → Run (Reception × Bool)
  then_rest fuel r = elim r.1 [
    | false ↦ done (r.0, false)
    | true ↦ read_messages o w bytes fuel r.0
  ]

  -- The loop, when the datagram is not at its end.
  loop_step :
      (fuel : ℕ) (s : Reception)
      → is_read o w bytes s.cursor ≡ false
      → read_messages o w bytes (suc fuel) s ≡ (next_round o w bytes s >>= then_rest fuel)
  unfolding read_messages
  loop_step fuel s e = rw (e) refl

  -- A round that changes nothing is followed by the same round.
  pub read_messages-stuck :
      (s : Reception)
      → is_read o w bytes s.cursor ≡ false
      → next_round o w bytes s ≡ done (s, true)
      → (fuel : ℕ) → read_messages o w bytes fuel s ≡ stuck
  unfolding read_messages
  read_messages-stuck s e k zero = refl
  read_messages-stuck s e k (suc fuel) = rw (e, k) (read_messages-stuck s e k fuel)

  -- The loop has an end or none.
  abbrev Decides : (fuel : ℕ) → Reception → Type 0
  Decides fuel s =
      (read_messages o w bytes fuel s ≢ stuck)
      ⊎ ((more : ℕ) → read_messages o w bytes more s ≡ stuck)

  unending :
      (s : Reception)
      → is_read o w bytes s.cursor ≡ false
      → next_round o w bytes s ≡ stuck
      → (fuel : ℕ) → read_messages o w bytes fuel s ≡ stuck
  unfolding read_messages
  unending s e k zero = refl
  unending s e k (suc fuel) = rw (e, k) refl

  unending_after :
      (s s' : Reception)
      → is_read o w bytes s.cursor ≡ false
      → next_round o w bytes s ≡ done (s', true)
      → ((more : ℕ) → read_messages o w bytes more s' ≡ stuck)
      → (fuel : ℕ) → read_messages o w bytes fuel s ≡ stuck
  unfolding read_messages
  unending_after s s' e k h zero = refl
  unending_after s s' e k h (suc fuel) = rw (e, k) (h fuel)

  -- The loop by a first round; the bound on the fuel covers what is left after it.
  decided_after :
      (fuel : ℕ) (s : Reception) (r : Run (Reception × Bool))
      → ((s' : Reception) → remaining bytes s'.cursor < fuel → Decides fuel s')
      → remaining bytes s.cursor < suc fuel
      → is_read o w bytes s.cursor ≡ false
      → next_round o w bytes s ≡ r
      → Gives (Advances o w bytes s) r
      → Decides (suc fuel) s
  unfolding read_messages
  decided_after fuel s fault rest h e q a = inl (rw (e, q) (λ p. cc))
  decided_after fuel s stuck rest h e q a = inr (unending s e q)
  decided_after fuel s (done (s', false)) rest h e q a = inl (rw (e, q) (λ p. cc))
  decided_after fuel s (done (s', true)) rest h e q (inl k) =
      inr (read_messages-stuck s e (q ∙ ap done k))
  decided_after fuel s (done (s', true)) rest h e q (inr l) = elim (rest s' (omega arith)) [
    | inl ends ↦ inl (rw (e, q) ends)
    | inr never ↦ inr (unending_after s s' e q never)
  ]

  decided : (fuel : ℕ) (s : Reception) → remaining bytes s.cursor < fuel → Decides fuel s
  unfolding read_messages
  decided zero s h = elim h [ ]
  decided (suc fuel) s h = elim (Bool-cases (is_read o w bytes s.cursor)) [
    | inl e ↦ inl (rw (e) (λ q. cc))
    | inr e ↦
        decided_after fuel s (next_round o w bytes s) (decided fuel) h e refl
          (next_round-Advances o w bytes s)
  ]

-- With fuel for two rounds more than the datagram has bytes, the loop over its messages comes to an
-- end, unless it has no end: then it runs out of fuel, however much there is.
pub read_messages-decides :
    (o : NetOrder) (w : World) (bytes : List ℕ) (s : Reception)
    → s.cursor ≡ Cursor.unread
    → (read_messages o w bytes (length bytes + 2) s ≢ stuck)
      ⊎ ((fuel : ℕ) → read_messages o w bytes fuel s ≡ stuck)
read_messages-decides o w bytes s e = decided o w bytes (length bytes + 2) s (rw (e) (omega arith))

-- What marks a datagram that is not of the protocol: no room for a header, another protocol's
-- number, or a later version.
unfoldable pub IsForeign : (protocol_id : ℕ) → List ℕ → Type 0
IsForeign protocol_id bytes =
    (length bytes < 12)
    ⊎ (((read_header bytes).protocol_id ≢ protocol_id) ⊎ (1 < (read_header bytes).version / 4))

foreign_none :
    (o : NetOrder) (w : World) (bytes : List ℕ) (s : Reception)
    → IsForeign w.protocol_id bytes
    → open_datagram o w.protocol_id w.receipt.sender bytes s ≡ done none
unfolding IsForeign open_datagram open_header
foreign_none o w bytes s (inl h) = rw (lt→ltb _ _ h) refl
foreign_none o w bytes s (inr h) = elim (Bool-cases (ltb (length bytes) 12)) [
  | inl e ↦ rw (e) refl
  | inr e ↦ rw (e) (other h)
]
  where
    other :
        ((read_header bytes).protocol_id ≢ w.protocol_id) ⊎ (1 < (read_header bytes).version / 4)
        → open_header o w.protocol_id w.receipt.sender bytes (read_header bytes) s ≡ done none
    other (inl h) = rw (ne→==_false _ _ h) refl
    other (inr h) = elim (Bool-cases ((read_header bytes).protocol_id == w.protocol_id)) [
      | inr e ↦ rw (e) refl
      | inl e ↦ rw (e, lt→ltb _ _ h) refl
    ]

-- The loop never comes to an end on a datagram that has no room for a header, has the number of
-- another protocol or has a later version.
pub read_messages-foreign :
    (o : NetOrder) (w : World) (bytes : List ℕ) (s : Reception)
    → s.cursor ≡ Cursor.unread
    → IsForeign w.protocol_id bytes
    → (fuel : ℕ) → read_messages o w bytes fuel s ≡ stuck
unfolding next_round get_message_handler_args get_at opened by_message
read_messages-foreign o w bytes s e h =
    read_messages-stuck o w bytes s (rw (e) refl) (rw (e, foreign_none o w bytes s h) refl)
