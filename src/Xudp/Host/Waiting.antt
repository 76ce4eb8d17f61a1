-- ===== src/Xudp/Host/Waiting.antt =====
-- What `_gekkota_xudp_dispatch` (src/gekkota/gekkota_xudp.c) leaves when it finds no event.
use gekkota.Base.{
  ℕ, zero, suc, ◌+◌, ◌<◌, ◌≤◌, ◌≡◌, ◌≢◌, refl, sym, ap, ◌∙◌, arith, Option, none, some, Bool, true,
  false,
}
use gekkota.Base.{Bool-cases, inl, inr, Result, get_elem?, length, ltb, ◌==◌, if◌then◌else◌}
use gekkota.Xudp.Types.{Client, Packet, ClientState}
use gekkota.Xudp.Event.{Event, event_new}
use gekkota.Xudp.Host.Accept.{Code, discarded}
use gekkota.Xudp.Host.Dispatch

code_of_event-ne : (e : Option Event) → Dispatch.code_of_event e ≢ discarded
code_of_event-ne none h = cc
code_of_event-ne (some e) h = cc

-- A visit that returns has a result that is not 0.
IsTelling : Dispatch.Visit → Type 0
IsTelling Dispatch.passes = Unit
IsTelling (Dispatch.serves c serviced reconfigures e code) = code ≢ discarded

module _ (inflate : Packet → Result Packet) (alloc : Bool) (host_mtu : ℕ) where
  delivered_event-IsTelling :
      (place : ℕ) (r : Client × Dispatch.Delivery)
      → IsTelling (Dispatch.delivered_event inflate alloc host_mtu place r)
  unfolding Dispatch.delivered_event event_new IsTelling
  delivered_event-IsTelling place (c, Dispatch.nothing) = tt
  delivered_event-IsTelling place (c, Dispatch.broken) = λ h. cc
  delivered_event-IsTelling place (c, Dispatch.packet_on i p from) = by_alloc alloc
    where
      by_alloc :
          (alloc : Bool)
          → IsTelling (
              Dispatch.delivered_event inflate alloc host_mtu place
                (c, Dispatch.packet_on i p from))
      by_alloc true = λ h. cc
      by_alloc false = λ h. cc

  visit_in-IsTelling :
      (s : ClientState) (place : ℕ) (c : Client)
      → IsTelling (Dispatch.visit_in inflate alloc host_mtu s place c)
  unfolding Dispatch.visit_in Dispatch.announce_connect Dispatch.announce_disconnect IsTelling
  visit_in-IsTelling ClientState.connection_pending place c = code_of_event-ne _
  visit_in-IsTelling ClientState.connection_succeeded place c = code_of_event-ne _
  visit_in-IsTelling ClientState.zombie place c = code_of_event-ne _
  visit_in-IsTelling ClientState.connected place c = delivered_event-IsTelling place _
  visit_in-IsTelling ClientState.disconnected place c = tt
  visit_in-IsTelling ClientState.connecting place c = tt
  visit_in-IsTelling ClientState.acknowledging_connect place c = tt
  visit_in-IsTelling ClientState.delaying_disconnect place c = tt
  visit_in-IsTelling ClientState.disconnecting place c = tt
  visit_in-IsTelling ClientState.acknowledging_disconnect place c = tt

  serves_ne :
      {c : Client} {a b : Bool} {e : Option Event} {k : Code}
      → Dispatch.serves c a b e k ≡ Dispatch.passes
      → ⊥
  serves_ne h = cc

  visit_in-waiting :
      (s : ClientState) (place : ℕ) (c : Client)
      → Dispatch.visit_in inflate alloc host_mtu s place c ≡ Dispatch.passes
      → (s ≢ ClientState.connection_pending)
        × (s ≢ ClientState.connection_succeeded)
        × (s ≢ ClientState.zombie)
  unfolding Dispatch.visit_in Dispatch.announce_connect Dispatch.announce_disconnect
  visit_in-waiting ClientState.connection_pending place c h = absurd (serves_ne h)
  visit_in-waiting ClientState.connection_succeeded place c h = absurd (serves_ne h)
  visit_in-waiting ClientState.zombie place c h = absurd (serves_ne h)
  visit_in-waiting ClientState.connected place c h = ((λ k. cc), (λ k. cc), (λ k. cc))
  visit_in-waiting ClientState.disconnected place c h = ((λ k. cc), (λ k. cc), (λ k. cc))
  visit_in-waiting ClientState.connecting place c h = ((λ k. cc), (λ k. cc), (λ k. cc))
  visit_in-waiting ClientState.acknowledging_connect place c h = ((λ k. cc), (λ k. cc), (λ k. cc))
  visit_in-waiting ClientState.delaying_disconnect place c h = ((λ k. cc), (λ k. cc), (λ k. cc))
  visit_in-waiting ClientState.disconnecting place c h = ((λ k. cc), (λ k. cc), (λ k. cc))
  visit_in-waiting ClientState.acknowledging_disconnect place c h =
      ((λ k. cc), (λ k. cc), (λ k. cc))

  visit_at-IsTelling :
      (place : ℕ) (c : Option Client) → IsTelling (Dispatch.visit_at inflate alloc host_mtu place c)
  unfolding Dispatch.visit_at Dispatch.visit_client IsTelling
  visit_at-IsTelling place none = tt
  visit_at-IsTelling place (some c) = visit_in-IsTelling c.state place c

  -- A loop that returns 0 passed the client of each round and left the table.
  by_visit-passes :
      (t : Dispatch.Table) (place : ℕ) (v : Dispatch.Visit)
      (rest : Dispatch.Table × Option Event × Code)
      → IsTelling v
      → (Dispatch.by_visit inflate alloc host_mtu t place v rest).2 ≡ discarded
      → (v ≡ Dispatch.passes) × (Dispatch.by_visit inflate alloc host_mtu t place v rest ≡ rest)
  unfolding Dispatch.by_visit IsTelling
  by_visit-passes t place Dispatch.passes rest told h = (refl, refl)
  by_visit-passes t place (Dispatch.serves c a b e code) rest told h = absurd (told h)

  dispatch_from-same :
      (t : Dispatch.Table) (count place : ℕ)
      → (Dispatch.dispatch_from inflate alloc host_mtu t count place).2 ≡ discarded
      → (Dispatch.dispatch_from inflate alloc host_mtu t count place).0 ≡ t
  unfolding Dispatch.dispatch_from
  dispatch_from-same t zero place h = refl
  dispatch_from-same t (suc count) place h =
      let here = Dispatch.next_place inflate alloc host_mtu t place in
      let rest = Dispatch.dispatch_from inflate alloc host_mtu t count here in
      let (passed, same) =
        by_visit-passes t here
          (Dispatch.visit_at inflate alloc host_mtu here (get_elem? t.clients here)) rest
          (visit_at-IsTelling here (get_elem? t.clients here)) h in
      ap (λ r. r.0) same ∙ dispatch_from-same t count here (sym (ap (λ r. r.2) same) ∙ h)

  -- A loop that returns 0 leaves the table, and passes every place that is less than its rounds away.
  dispatch_from-passes :
      (t : Dispatch.Table) (count place i : ℕ)
      → place < length t.clients
      → i < length t.clients
      → (if ltb place i then i else i + length t.clients) ≤ place + count
      → (Dispatch.dispatch_from inflate alloc host_mtu t count place).2 ≡ discarded
      → ((Dispatch.dispatch_from inflate alloc host_mtu t count place).0 ≡ t)
        × (Dispatch.visit_at inflate alloc host_mtu i (get_elem? t.clients i) ≡ Dispatch.passes)
  unfolding Dispatch.dispatch_from
  dispatch_from-passes t zero place i own other near h = absurd (ground arith)
  dispatch_from-passes t (suc count) place i own other near h =
      let here = Dispatch.next_place inflate alloc host_mtu t place in
      let rest = Dispatch.dispatch_from inflate alloc host_mtu t count here in
      let (passed, same) =
        by_visit-passes t here
          (Dispatch.visit_at inflate alloc host_mtu here (get_elem? t.clients here)) rest
          (visit_at-IsTelling here (get_elem? t.clients here)) h in
      let inside : here < length t.clients = ground arith in
      let after : rest.2 ≡ discarded = sym (ap (λ r. r.2) same) ∙ h in
      elim (Bool-cases (here == i)) [
        | inl e ↦
            let found : here ≡ i = ground arith in
            (
              ap (λ r. r.0) same ∙ dispatch_from-same t count here after,
              ap (λ j. Dispatch.visit_at inflate alloc host_mtu j (get_elem? t.clients j))
                    (sym found)
                  ∙ passed,
            )
        | inr e ↦
            let closer : (if ltb here i then i else i + length t.clients) ≤ here + count =
              ground arith in
            let (table, there) = dispatch_from-passes t count here i inside other closer after in
            (ap (λ r. r.0) same ∙ table, there)
      ]

-- When dispatching returns 0, and the client that was serviced last is in the table, the table stays
-- as it was, and no client in it waits for its connection or its end to be announced.
pub dispatch-waiting :
    (inflate : Packet → Result Packet) (alloc : Bool) (host_mtu : ℕ) (t : Dispatch.Table) (i : ℕ)
    (c : Client)
    → t.last_serviced < length t.clients
    → i < length t.clients
    → get_elem? t.clients i ≡ some c
    → (Dispatch.dispatch inflate alloc host_mtu t).2 ≡ discarded
    → ((Dispatch.dispatch inflate alloc host_mtu t).0 ≡ t)
      × (c.state ≢ ClientState.connection_pending)
      × (c.state ≢ ClientState.connection_succeeded)
      × (c.state ≢ ClientState.zombie)
unfolding Dispatch.dispatch Dispatch.visit_at Dispatch.visit_client
dispatch-waiting inflate alloc host_mtu t i c own inside there h =
    let near : (if ltb t.last_serviced i then i else i + length t.clients)
        ≤ t.last_serviced + length t.clients =
      ground arith in
    let (table, passed) =
      dispatch_from-passes inflate alloc host_mtu t (length t.clients) t.last_serviced i own inside
        near h in
    let visited : Dispatch.visit_client inflate alloc host_mtu i c ≡ Dispatch.passes =
      sym (ap (λ o. Dispatch.visit_at inflate alloc host_mtu i o) there) ∙ passed in
    let (first, second, third) = visit_in-waiting inflate alloc host_mtu c.state i c visited in
    (table, first, second, third)
