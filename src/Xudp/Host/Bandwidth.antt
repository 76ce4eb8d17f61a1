-- ===== src/Xudp/Host/Bandwidth.antt =====
-- `_gekkota_xudp_throttle_bandwidth` (src/gekkota/gekkota_xudp.c). Numbers are of 32 bits; a
-- division by 0 is a fault.
use gekkota.Base.{
  ℕ, zero, suc, ◌+◌, ◌*◌, ◌/◌, List, [], ◌∷◌, none, Bool, true, false, NetOrder, Result, ok, err,
}
use gekkota.Base.{
  Run, done, fault, stuck, ◌>>=◌, u32, sub32, leb, ltb, ◌==◌, ◌&&◌, ◌||◌, not, if◌then◌else◌,
}
use gekkota.Xudp.Types.{Client, MessageType, Body}
use gekkota.Xudp.Client.Outgoing.{queue_outgoing_message, client_message}
use gekkota.Xudp.Client.Close.{Outcome, finished, is_open}

-- The members of the host that the function uses, and its clients.
pub record Host : Type 0 where
  pub incoming_bandwidth : ℕ
  pub outgoing_bandwidth : ℕ
  pub bandwidth_throttle_epoch : ℕ
  pub reconfigure_bandwidth : Bool
  pub clients : List Client

-- `clientsTotal` and `dataTotal`.
unfoldable pub tally : List Client → (clients_total data_total : ℕ) → ℕ × ℕ
tally [] n total = (n, total)
tally (c ∷ cs) n total =
    let counted = tally cs (u32 (n + 1)) (u32 (total + c.outgoing_data_total)) in
    let passed = tally cs n total in if is_open c.state then counted else passed

unfoldable pub divided : ℕ → ℕ → Run ℕ
divided a b = if b == 0 then fault else done (a / b)

-- The variables of a `while` loop. The second loop has no `data_total`.
pub record Budget : Type 0 where
  pub bandwidth : ℕ
  pub data_total : ℕ
  pub remaining : ℕ
  pub adjusts : Bool

unfoldable pub throttle_for : Budget → Run ℕ
unfolding divided
throttle_for b =
    if ltb b.data_total b.bandwidth then done 32 else divided (u32 (b.bandwidth * 32)) b.data_total

-- A limit on a client's packet throttle.
unfoldable pub capped : (limit : ℕ) → Client → Client
capped limit c = record c {
  packet_throttle_limit = limit;
  packet_throttle = if ltb limit c.packet_throttle then limit else c.packet_throttle;
}

unfoldable pub at_least_one : ℕ → ℕ
at_least_one n = if n == 0 then 1 else n

module _ (now share throttle : ℕ) where
  -- The clients that the first loop leaves alone.
  unfoldable pub is_passed : Client → Bool
  is_passed c =
      not (is_open c.state)
      || (c.incoming_bandwidth == 0)
      || (c.outgoing_bandwidth_throttle_epoch == now)
      || leb (u32 (throttle * c.outgoing_data_total) / 32) share

  unfoldable pub limited_to : (limit : ℕ) → Client → Client
  unfolding capped at_least_one
  limited_to limit c = record (capped (at_least_one limit) c) {
    outgoing_bandwidth_throttle_epoch = now;
  }

  abbrev pub spent : Budget → Budget
  spent b = record {
    bandwidth = sub32 b.bandwidth share;
    data_total = sub32 b.data_total share;
    remaining = sub32 b.remaining 1;
    adjusts = true;
  }

  unfoldable pub limit_one : Client → Budget → Run (Client × Budget)
  unfolding limited_to is_passed divided
  limit_one c b =
      if is_passed c
      then done (c, b)
      else (divided (u32 (share * 32)) c.outgoing_data_total >>= λ limit.
          done (limited_to limit c, spent b))

  unfoldable pub limit_pass : List Client → Budget → Run (List Client × Budget)
  unfolding limit_one
  limit_pass [] b = done ([], b)
  limit_pass (c ∷ cs) b = limit_one c b >>= λ t. (limit_pass cs t.1 >>= λ r. done (t.0 ∷ r.0, r.1))

-- The clients, the budget and the last throttle that a loop leaves.
pub record Throttling : Type 0 where
  pub clients : List Client
  pub budget : Budget
  pub throttle : ℕ

module _ (now share : ℕ) where
  -- The first `while` loop, on fuel.
  unfoldable pub limit_rounds : (fuel : ℕ) → List Client → Budget → (throttle : ℕ) → Run Throttling
  unfolding limit_pass throttle_for
  limit_rounds zero cs b throttle = stuck
  limit_rounds (suc fuel) cs b throttle =
      let again = λ (t : ℕ) (r : List Client × Budget). limit_rounds fuel r.0 r.1 t in
      if ltb 0 b.remaining && b.adjusts
      then (throttle_for b >>= λ t.
          limit_pass now share t cs (record b { adjusts = false }) >>= again t)
      else done (record { clients = cs; budget = b; throttle = throttle })

-- The clients that were not limited by the first loop.
unfoldable pub throttle_rest : (now throttle : ℕ) → List Client → List Client
unfolding capped
throttle_rest now throttle [] = []
throttle_rest now throttle (c ∷ cs) =
    let rest = throttle_rest now throttle cs in
    if not (is_open c.state) || (c.outgoing_bandwidth_throttle_epoch == now)
    then c ∷ rest
    else capped throttle c ∷ rest

unfoldable pub throttled_rest : (now : ℕ) → Throttling → List Client
unfolding throttle_rest
throttled_rest now t =
    if ltb 0 t.budget.remaining then throttle_rest now t.throttle t.clients else t.clients

module _ (now : ℕ) where
  -- The clients that the second loop leaves alone.
  unfoldable pub keeps_share : (limit : ℕ) → Client → Bool
  keeps_share limit c =
      not (is_open c.state)
      || (c.incoming_bandwidth_throttle_epoch == now)
      || ltb 0 c.outgoing_bandwidth && leb limit c.outgoing_bandwidth

  unfoldable pub share_pass : (limit : ℕ) → List Client → Budget → List Client × Budget
  unfolding keeps_share
  share_pass limit [] b = ([], b)
  share_pass limit (c ∷ cs) b =
      let kept = keeps_share limit c in
      let r = share_pass limit cs (
        if kept then b else record {
          bandwidth = sub32 b.bandwidth c.outgoing_bandwidth;
          data_total = b.data_total;
          remaining = sub32 b.remaining 1;
          adjusts = true;
        }) in
      ((if kept then c else record c { incoming_bandwidth_throttle_epoch = now }) ∷ r.0, r.1)

  -- The second `while` loop, on fuel: the clients and `bandwidthLimit`.
  unfoldable pub share_rounds :
      (fuel : ℕ) → List Client → Budget → (limit : ℕ) → Run (List Client × ℕ)
  unfolding share_pass divided
  share_rounds zero cs b limit = stuck
  share_rounds (suc fuel) cs b limit =
      let again = λ (l : ℕ) (r : List Client × Budget). share_rounds fuel r.0 r.1 l in
      if ltb 0 b.remaining && b.adjusts
      then (divided b.bandwidth b.remaining >>= λ l.
          again l (share_pass l cs (record b { adjusts = false })))
      else done (cs, limit)

module _ (o : NetOrder) (now epoch outgoing_bandwidth limit : ℕ) where
  -- The incoming bandwidth for a client; the test is on the host's epoch.
  unfoldable pub announced : Client → ℕ
  announced c = if epoch == now then c.outgoing_bandwidth else limit

  -- The CONFIGURE_BANDWIDTH message for a client.
  unfoldable pub announce_one : Bool → Client → Run (Client × Result (Unit {0}))
  unfolding queue_outgoing_message announced
  announce_one alloc c =
      if is_open c.state
      then queue_outgoing_message o alloc c
          (client_message o MessageType.configure_bandwidth
            (if c.is_multicast_group_member then 2 else 1)
            (Body.bandwidth (o.hton32 (announced c)) (o.hton32 outgoing_bandwidth)))
          none 0 0
      else done (c, ok tt)

  unfoldable pub go_on :
      (rest : Run (List Client × Outcome))
      → List Client
      → Client × Result (Unit {0})
      → Run (List Client × Outcome)
  go_on rest cs (c, ok t) = rest >>= λ r. done (c ∷ r.0, r.1)
  go_on rest cs (c, err e) = done (c ∷ cs, Outcome.failed)

  -- The Booleans say which allocations succeed; where there are no more, they all do.
  unfoldable pub announce : List Bool → List Client → Run (List Client × Outcome)
  unfolding announce_one go_on
  announce allocs [] = done ([], finished)
  announce [] (c ∷ cs) = announce_one true c >>= go_on (announce [] cs) cs
  announce (alloc ∷ allocs) (c ∷ cs) = announce_one alloc c >>= go_on (announce allocs cs) cs

unfoldable pub without_totals : List Client → List Client
without_totals [] = []
without_totals (c ∷ cs) =
    record c { incoming_data_total = 0; outgoing_data_total = 0 } ∷ without_totals cs

module _ (o : NetOrder) (now fuel : ℕ) (allocs : List Bool) where
  unfoldable pub shared : Host → (clients_total : ℕ) → Run (List Client × ℕ)
  unfolding share_rounds
  shared h n =
      if h.incoming_bandwidth == 0
      then done (h.clients, 0)
      else share_rounds now fuel h.clients
          (record {
            bandwidth = h.incoming_bandwidth;
            data_total = 0;
            remaining = n;
            adjusts = true;
          })
          0

  unfoldable pub closed_epoch : Host → List Client × Outcome → Host × Outcome
  unfolding without_totals
  closed_epoch h (cs, finished) =
      (record h { bandwidth_throttle_epoch = now; clients = without_totals cs }, finished)
  closed_epoch h (cs, Outcome.failed) = (record h { clients = cs }, Outcome.failed)

  unfoldable pub reconfigured : Host → (clients_total : ℕ) → Run (Host × Outcome)
  unfolding shared announce closed_epoch
  reconfigured h n =
      let h' = record h { reconfigure_bandwidth = false } in
      if h.reconfigure_bandwidth
      then (shared h' n >>= λ r.
          announce o now h.bandwidth_throttle_epoch h.outgoing_bandwidth r.1 allocs r.0 >>= λ q.
          done (closed_epoch h' q))
      else done (closed_epoch h (h.clients, finished))

  unfoldable pub scaled_bandwidth : (bandwidth elapsed : ℕ) → ℕ
  scaled_bandwidth bandwidth elapsed = u32 (bandwidth * elapsed) / 1000

  unfoldable pub first_budget : Host → (elapsed : ℕ) → ℕ × ℕ → Budget
  unfolding scaled_bandwidth
  first_budget h elapsed (n, total) = record {
    bandwidth =
        if h.outgoing_bandwidth == 0
        then 4294967295
        else scaled_bandwidth h.outgoing_bandwidth elapsed;
    data_total = total;
    remaining = n;
    adjusts = true;
  }

  unfoldable pub throttle_bandwidth : Host → Run (Host × Outcome)
  unfolding limit_rounds throttled_rest reconfigured first_budget scaled_bandwidth tally
  throttle_bandwidth h =
      let elapsed = sub32 now h.bandwidth_throttle_epoch in
      let counted = tally h.clients 0 0 in
      if ltb elapsed 1000 || (counted.0 == 0)
      then done (h, finished)
      else (limit_rounds now (scaled_bandwidth h.incoming_bandwidth elapsed) fuel h.clients
            (first_budget h elapsed counted) 0
          >>= λ t. reconfigured (record h { clients = throttled_rest now t }) counted.0)
