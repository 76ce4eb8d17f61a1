-- ===== src/Xudp/Timing.antt =====
-- Round-trip times and the packet throttle: `_gekkota_xudpclient_throttle`
-- (src/gekkota/gekkota_xudpclient.c) and what `_gekkota_xudp_on_acknowledge_message`
-- (src/gekkota/gekkota_xudp.c) does with the time of an acknowledgement.
use gekkota.Base.{◌⊎◌, inl, inr, Bool-cases}
use gekkota.Base.{ℕ, ◌+◌, ◌-◌, ◌*◌, ◌/◌, ◌%◌, ◌<◌, ◌≤◌, ◌≡◌, arith, Option}
use gekkota.Base.{u16, u32, sub32, ltb, leb, ◌==◌, ◌||◌, not, if◌then◌else◌, none, some, refl}
use gekkota.Xudp.Types.{Client}
use gekkota.Xudp.Clock.{time_compare, time_get_lag, lag_u32, lag_below, is_less}

-- The results 1, -1 and 0.
pub data Throttled : Type 0 where
  raised lowered kept : Throttled

unfoldable pub raise : (throttle acceleration limit : ℕ) → ℕ
raise throttle acceleration limit =
    let t = u32 (throttle + acceleration) in if ltb limit t then limit else t

unfoldable pub lower : (throttle deceleration : ℕ) → ℕ
lower throttle deceleration = if ltb deceleration throttle then throttle - deceleration else 0

unfoldable pub throttle : Client → (round_trip_time : ℕ) → Client × Throttled
unfolding raise lower
throttle c time =
    if leb c.last_round_trip_time c.last_round_trip_time_variance
    then (record c { packet_throttle = c.packet_throttle_limit }, kept)
    else if ltb time c.last_round_trip_time
    then (
      record c {
        packet_throttle =
            raise c.packet_throttle c.packet_throttle_acceleration c.packet_throttle_limit;
      },
      raised,
    )
    else if ltb (u32 (c.last_round_trip_time + 2 * c.last_round_trip_time_variance)) time
    then (
      record c { packet_throttle = lower c.packet_throttle c.packet_throttle_deceleration },
      lowered,
    )
    else (c, kept)

-- The full sent time from its low 16 bits.
unfoldable pub full_sent_time : (now low : ℕ) → ℕ
full_sent_time now low =
    let t = now / 65536 * 65536 + u16 low in
    if ltb (now / 32768 % 2) (t / 32768 % 2) then sub32 t 65536 else t

unfoldable pub smoothed_time : (old time : ℕ) → ℕ
smoothed_time old time =
    if leb old time then u32 (old + (time - old) / 8) else old - (old - time) / 8

-- The variance looks at the time that is already smoothed.
unfoldable pub smoothed_variance : (variance old time : ℕ) → ℕ
unfolding smoothed_time
smoothed_variance variance old time =
    if leb old time
    then u32 (variance - variance / 4 + (time - smoothed_time old time) / 4)
    else u32 (variance - variance / 4 + (smoothed_time old time - time) / 4)

unfoldable pub smoothed : Client → (time : ℕ) → Client
unfolding smoothed_time smoothed_variance
smoothed c time =
    let t = smoothed_time c.round_trip_time time in
    let v = smoothed_variance c.round_trip_time_variance c.round_trip_time time in
    record c {
      round_trip_time = t;
      round_trip_time_variance = v;
      lowest_round_trip_time =
          if ltb t c.lowest_round_trip_time then t else c.lowest_round_trip_time;
      highest_round_trip_time_variance =
          if ltb c.highest_round_trip_time_variance v
          then v
          else c.highest_round_trip_time_variance;
    }

-- At the end of a throttle interval the extremes start again.
unfoldable pub next_epoch : (now : ℕ) → Client → Client
next_epoch now c =
    if c.packet_throttle_epoch == 0
      || not (lag_below (time_get_lag now c.packet_throttle_epoch) c.packet_throttle_interval)
    then record c {
      last_round_trip_time = c.lowest_round_trip_time;
      last_round_trip_time_variance = c.highest_round_trip_time_variance;
      lowest_round_trip_time = c.round_trip_time;
      highest_round_trip_time_variance = c.round_trip_time_variance;
      packet_throttle_epoch = now;
    }
    else c

-- The client after the time of an acknowledgement; `none` where the handler returns at once.
unfoldable pub timed : (now low : ℕ) → Client → Option Client
unfolding throttle full_sent_time smoothed next_epoch time_compare time_get_lag
timed now low c =
    let sent = full_sent_time now low in
    if is_less (time_compare now sent)
    then none
    else let time = lag_u32 (time_get_lag now sent) in
      some (
        next_epoch now (
          smoothed (throttle (record c { last_receive_time = now; earliest_timeout = 0 }) time).0
            time))

raise_le : (t a limit : ℕ) → raise t a limit ≤ limit
unfolding raise
raise_le t a limit = ground arith

lower_le : (t d : ℕ) → lower t d ≤ t
unfolding lower
lower_le t d = ground arith

-- The throttle stays within its limit, which does not change, whatever the round-trip time.
pub throttle-within :
    (c : Client) (time : ℕ)
    → c.packet_throttle ≤ c.packet_throttle_limit
    → ((throttle c time).0.packet_throttle_limit ≡ c.packet_throttle_limit)
      × ((throttle c time).0.packet_throttle ≤ c.packet_throttle_limit)
unfolding throttle
throttle-within c time h =
    elim (Bool-cases (leb c.last_round_trip_time c.last_round_trip_time_variance)) [
      | inl p ↦ rw (p) (refl, omega arith)
      | inr p ↦ elim (Bool-cases (ltb time c.last_round_trip_time)) [
        | inl q ↦
            rw (p, q)
              (
                refl,
                raise_le c.packet_throttle c.packet_throttle_acceleration c.packet_throttle_limit,
              )
        | inr q ↦
            elim (Bool-cases
              (ltb (u32 (c.last_round_trip_time + 2 * c.last_round_trip_time_variance)) time)) [
                | inl r ↦
                    let less = lower_le c.packet_throttle c.packet_throttle_deceleration in
                    rw (p, q, r) (refl, omega (arith, less, h))
                | inr r ↦ rw (p, q, r) (refl, h)
              ]
      ]
    ]

smoothed_time-between :
    (old time : ℕ)
    → old < 4294967296
    → time < 4294967296
    → ((old ≤ time) × (old ≤ smoothed_time old time) × (smoothed_time old time ≤ time))
      ⊎ ((time ≤ old) × (time ≤ smoothed_time old time) × (smoothed_time old time ≤ old))
unfolding smoothed_time
smoothed_time-between old time h k = elim (Bool-cases (leb old time)) [
  | inl e ↦ let less : old ≤ time = ground arith in inl (rw (e) (less, omega arith, omega arith))
  | inr e ↦ let less : time ≤ old = ground arith in inr (rw (e) (less, omega arith, omega arith))
]

-- For 32-bit round-trip times, the smoothed round-trip time lies between the old one and the time
-- measured.
pub smoothed-between :
    (c : Client) (time : ℕ)
    → c.round_trip_time < 4294967296
    → time < 4294967296
    → ((c.round_trip_time ≤ time)
        × (c.round_trip_time ≤ (smoothed c time).round_trip_time)
        × ((smoothed c time).round_trip_time ≤ time))
      ⊎ ((time ≤ c.round_trip_time)
          × (time ≤ (smoothed c time).round_trip_time)
          × ((smoothed c time).round_trip_time ≤ c.round_trip_time))
unfolding smoothed
smoothed-between c time h k = smoothed_time-between c.round_trip_time time h k
