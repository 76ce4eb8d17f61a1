-- ===== src/Xudp/Clock.antt =====
-- src/gekkota/gekkota_time.c and gekkota_time.h. A `time_t` is a signed 64-bit number, and every
-- caller passes numbers that are not negative and small, so the subtractions do not overflow.
use gekkota.Base.{ℕ, ◌+◌, ◌-◌, ◌%◌, Bool, true, false}
use gekkota.Base.{leb, ltb, if◌then◌else◌}

abbrev pub time_overflow : ℕ
time_overflow = 86400000

-- The results -1, 0 and 1 of `gekkota_time_compare`.
pub data Compared : Type 0 where
  less equal greater : Compared

abbrev pub is_less : Compared → Bool
is_less less = true
is_less _ = false

unfoldable pub time_compare : ℕ → ℕ → Compared
time_compare a b =
    if leb (b + time_overflow) a then less else if leb (a + time_overflow) b then greater else equal

-- A signed difference.
pub data Lag : Type 0 where
  ahead : ℕ → Lag
  behind : ℕ → Lag

abbrev difference : ℕ → ℕ → Lag
difference a b = if leb b a then ahead (a - b) else behind (b - a)

unfoldable pub time_get_lag : ℕ → ℕ → Lag
time_get_lag a b = if leb (b + time_overflow) a then difference b a else difference a b

-- The cast of a lag to uint32_t.
abbrev pub lag_u32 : Lag → ℕ
lag_u32 (ahead n) = n % 4294967296
lag_u32 (behind n) = (4294967296 - n % 4294967296) % 4294967296

-- `lag < n` and `lag >= n` between a lag and an unsigned 32-bit number, as 64-bit numbers.
abbrev pub lag_below : Lag → ℕ → Bool
lag_below (ahead n) m = ltb n m
lag_below (behind n) m = true
