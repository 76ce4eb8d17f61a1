-- ===== src/Xudp/Host/Broadcast.antt =====
-- `gekkota_xudp_broadcast` (src/gekkota/gekkota_xudp.c) on arguments that are not NULL. The function
-- `send` stands for gekkota_xudpclient_send with the packet and the channel: what it makes of the
-- client, and whether its result is 0.
use gekkota.Base.{
  ◌≡◌, refl, ap, List, [], ◌∷◌, ◌++◌, Bool, true, false, Bool-cases, inl, inr, ◌⊎◌, if◌then◌else◌,
}
use gekkota.Xudp.Types.{Client, ClientState, in_state}

by_sent : Client × Bool → List Client → List Client × Bool → List Client × Bool
by_sent (c, true) cs rest = (c ∷ rest.0, rest.1)
by_sent (c, false) cs rest = (c ∷ cs, false)

-- The clients and whether the result is 0; after a failure the other clients are left as they are.
unfoldable pub broadcast : (send : Client → Client × Bool) → List Client → List Client × Bool
unfolding by_sent
broadcast send [] = ([], true)
broadcast send (c ∷ cs) =
    let rest = broadcast send cs in
    by_sent (if in_state c.state ClientState.connected then send c else (c, true)) cs rest

-- Each client that is connected is sent to; the others are left alone.
unfoldable pub sent_to : (send : Client → Client × Bool) → List Client → List Client
sent_to send [] = []
sent_to send (c ∷ cs) =
    (if in_state c.state ClientState.connected then (send c).0 else c) ∷ sent_to send cs

-- Sending succeeds for each of the clients that is connected.
unfoldable pub AllSend : (send : Client → Client × Bool) → List Client → Type 0
AllSend send [] = Unit
AllSend send (c ∷ cs) =
    (in_state c.state ClientState.connected ≡ true → (send c).1 ≡ true) × AllSend send cs

-- The first client for which sending fails, and the clients around it.
pub record Stops (send : Client → Client × Bool) (cs : List Client) (result : List Client × Bool)
    : Type 0 where
  pub front : List Client
  pub client : Client
  pub back : List Client
  pub all : cs ≡ front ++ (client ∷ back)
  pub before : AllSend send front
  pub open' : in_state client.state ClientState.connected ≡ true
  pub fails : (send client).1 ≡ false
  pub left : result ≡ (sent_to send front ++ ((send client).0 ∷ back), false)

-- Broadcasting either succeeds with every client that is connected, and then each of them was sent
-- to and the result is 0; or there is a first connected client for which sending fails, and then
-- those before it and that client were sent to, those behind it stay as they were, and the result
-- is not 0.
pub broadcast-divides :
    (send : Client → Client × Bool) (cs : List Client)
    → (AllSend send cs × (broadcast send cs ≡ (sent_to send cs, true)))
      ⊎ Stops send cs (broadcast send cs)
unfolding broadcast sent_to by_sent AllSend
broadcast-divides send [] = inl (tt, refl)
broadcast-divides send (c ∷ cs) = elim (Bool-cases (in_state c.state ClientState.connected)) [
  | inl e ↦ elim (Bool-cases (send c).1) [
    | inl k ↦ elim (broadcast-divides send cs) [
      | inl (sends, whole) ↦
          inl (((λ h. k), sends), rw (e, k) (ap (λ r. ((send c).0 ∷ r.0, r.1)) whole))
      | inr stop ↦ inr (record {
        front = c ∷ stop.front;
        client = stop.client;
        back = stop.back;
        all = ap (λ t. c ∷ t) stop.all;
        before = ((λ h. k), stop.before);
        open' = stop.open';
        fails = stop.fails;
        left = rw (e, k) (ap (λ r. ((send c).0 ∷ r.0, r.1)) stop.left);
      })
    ]
    | inr k ↦ inr (record {
      front = [];
      client = c;
      back = cs;
      all = refl;
      before = tt;
      open' = e;
      fails = k;
      left = rw (e, k) refl;
    })
  ]
  | inr e ↦ elim (broadcast-divides send cs) [
    | inl (sends, whole) ↦ inl (((λ h. cc), sends), rw (e) (ap (λ r. (c ∷ r.0, r.1)) whole))
    | inr stop ↦ inr (record {
      front = c ∷ stop.front;
      client = stop.client;
      back = stop.back;
      all = ap (λ t. c ∷ t) stop.all;
      before = ((λ h. cc), stop.before);
      open' = stop.open';
      fails = stop.fails;
      left = rw (e) (ap (λ r. (c ∷ r.0, r.1)) stop.left);
    })
  ]
]
