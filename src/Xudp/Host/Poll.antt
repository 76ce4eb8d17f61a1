-- ===== src/Xudp/Host/Poll.antt =====
-- `gekkota_xudp_poll` and `gekkota_xudp_flush` (src/gekkota/gekkota_xudp.c) on a host that is not
-- NULL: throttling, sending, receiving and dispatching, one after the other.
mod Tests
use gekkota.Base.{
  ℕ, ◌+◌, ◌<◌, ◌≡◌, refl, arith, List, [], ◌∷◌, ◌++◌, Option, none, some, Bool, true, false,
  NetOrder, Result,
}
use gekkota.Base.{Run, done, stuck, ◌>>=◌, u32, ltb, ltb_false→le, ◌&&◌, not, if◌then◌else◌}
use gekkota.Xudp.Types.{Packet}
use gekkota.Xudp.Clock.{time_compare, time_get_lag, lag_below, is_less}
use gekkota.Xudp.Event.{Event}
use gekkota.Xudp.Client.Close.{Outcome}
use gekkota.Xudp.Host.Notify.{Service}
use gekkota.Xudp.Host.Accept.{Code, discarded, processed, failed}
use gekkota.Xudp.Host.Flush.{Call, Leave, Transmission, Round, rounds}
use gekkota.Xudp.Host.Bandwidth.{Host, throttle_bandwidth}
use gekkota.Xudp.Host.Dispatch.{Table, dispatch}
use gekkota.Xudp.Host.Messages.{World}
use gekkota.Xudp.Host.Receiving.{Arrivals, receive_datagrams}

-- The host, the place of the client serviced last, and what was sent in the call.
pub record Polling : Type 0 where
  pub host : Host
  pub last_serviced : ℕ
  pub transmissions : List Transmission

-- A round of the loop: the time when it starts, what the socket has, the time after it, and the
-- result of `gekkota_socket_poll`: -1, or whether it is positive.
pub record Moment : Type 0 where
  pub now : ℕ
  pub arrivals : Arrivals
  pub after : ℕ
  pub ready : Option Bool

-- The allocations, the packets that the program keeps, the socket, the compression step and closing
-- the members of multicast groups in a call, and the fuel of its loops.
pub record Circumstances : Type 0 where
  pub world : World
  pub transmit : Transmission → Bool
  pub inflate : Packet → Result Packet
  pub alloc_ping : Bool
  pub keeps : Packet → Bool
  pub leave : Leave
  pub alloc_announcements : List Bool
  pub fuel : ℕ

-- The state, the event and the result 0, 1 or -1.
abbrev pub Step : Type 0
Step = Polling × Option Event × Code

-- The next step is taken on the result 0.
abbrev pub then_next : Step → (Polling → Run Step) → Run Step
then_next (s, e, discarded) next = next s
then_next (s, e, code) next = done (s, e, code)

abbrev table_of : Polling → Table
table_of s = record {
  clients = s.host.clients;
  last_serviced = s.last_serviced;
  reconfigure = s.host.reconfigure_bandwidth;
}

abbrev with_table : Polling → Table × Option Event × Code → Step
with_table s (t, e, code) = (
  record s {
    host = record s.host { clients = t.clients; reconfigure_bandwidth = t.reconfigure };
    last_serviced = t.last_serviced;
  },
  e,
  code,
)

-- A round that ended early has an event or has failed.
code_of_end : Option (Option Event × Bool) → Option Event × Code
code_of_end none = (none, discarded)
code_of_end (some (e, true)) = (none, failed)
code_of_end (some (e, false)) = (e, processed)

with_round : Polling → Round → Step
unfolding code_of_end
with_round s r = (
  record s {
    host = record s.host { clients = r.clients; reconfigure_bandwidth = r.reconfigure };
    transmissions = s.transmissions ++ r.transmissions;
  },
  (code_of_end r.ended).0,
  (code_of_end r.ended).1,
)

module _ (o : NetOrder) (k : Circumstances) where
  abbrev world_at : (now : ℕ) → Host → World
  world_at now h = record k.world {
    now = now;
    settings = record k.world.settings {
      incoming_bandwidth = h.incoming_bandwidth;
      outgoing_bandwidth = h.outgoing_bandwidth;
    };
  }

  -- `_gekkota_xudp_dispatch`, where the caller asks for an event.
  unfoldable pub dispatched : Polling → Step
  unfolding dispatch
  dispatched s =
      if k.world.wants_event
      then with_table s
          (dispatch k.inflate k.world.alloc_event k.world.settings.host_mtu (table_of s))
      else (s, none, discarded)

  -- The result of `_gekkota_xudp_throttle_bandwidth` is not looked at.
  throttled : (now : ℕ) → Polling → Run Polling
  unfolding throttle_bandwidth
  throttled now s =
      let run = throttle_bandwidth o now k.fuel k.alloc_announcements s.host in
      if lag_below (time_get_lag now s.host.bandwidth_throttle_epoch) 1000
      then done s
      else (run >>= λ r. done (record s { host = r.0 }))

  -- `_gekkota_xudp_send`.
  unfoldable pub sent : (now : ℕ) → (wants_event check : Bool) → Polling → Run Step
  unfolding rounds with_round
  sent now wants_event check s =
      rounds o
        (record {
          now = now;
          protocol_id = k.world.protocol_id;
          check = check;
          alloc_ping = k.alloc_ping;
          keeps = k.keeps;
        })
        k.transmit
        (record {
          place = 0;
          host_mtu = k.world.settings.host_mtu;
          wants_event = wants_event;
          alloc_event = k.world.alloc_event;
        })
        k.leave k.fuel s.host.reconfigure_bandwidth s.host.clients
      >>= λ r. done (with_round s r)

  -- `_gekkota_xudp_receive`.
  received : (now : ℕ) → Arrivals → Polling → Run Step
  unfolding receive_datagrams
  received now arrivals s =
      receive_datagrams o (world_at now s.host) k.fuel (table_of s) arrivals >>= λ r.
      done (with_table s r)

  -- The body of the loop before the clock is read again.
  unfoldable pub poll_round : Moment → Polling → Run Step
  unfolding throttled sent received dispatched
  poll_round m s = throttled m.now s >>= sent m.now k.world.wants_event true >>= λ a.
      then_next a (received m.now m.arrivals) >>= λ b.
      then_next b (sent m.now k.world.wants_event true) >>= λ c.
      then_next c (λ t. done (dispatched t))

  -- Whether the time is over; a negative timeout, which is `none`, has no deadline.
  abbrev is_over : (deadline : Option ℕ) → (after : ℕ) → Bool
  is_over none after = false
  is_over (some d) after = not (is_less (time_compare after d))

  abbrev is_endless : Option ℕ → Bool
  is_endless none = true
  is_endless (some d) = false

  -- The loop, a moment for each round; where there are no more, it would go on.
  unfoldable pub poll_loop : (deadline : Option ℕ) → List Moment → Polling → Run Step
  unfolding poll_round time_compare
  poll_loop deadline [] s = stuck
  poll_loop deadline (m ∷ ms) s = poll_round m s >>= λ r. then_next r (λ t.
      let rest = poll_loop deadline ms t in
      if is_over deadline m.after then done (t, r.1, discarded) else elim m.ready [
        | none ↦ done (t, r.1, failed)
        | some true ↦ rest
        | some false ↦ if is_endless deadline then rest else done (t, r.1, discarded)
      ])

  -- The timeout counts from the time when the first round starts.
  abbrev deadline_for : (timeout : Option ℕ) → List Moment → Option ℕ
  deadline_for none ms = none
  deadline_for (some t) [] = some t
  deadline_for (some t) (m ∷ ms) = some (t + m.now)

  unfoldable pub poll : (timeout : Option ℕ) → List Moment → Polling → Run Step
  unfolding poll_loop dispatched
  poll timeout ms s = then_next (dispatched s) (poll_loop (deadline_for timeout ms) ms)

  -- `gekkota_xudp_flush`.
  unfoldable pub flush_host : (now : ℕ) → Polling → Run Step
  unfolding sent
  flush_host now s = sent (u32 now) false false s
