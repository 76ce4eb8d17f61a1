-- ===== src/Xudp/Window.antt =====
-- The window of a client and its bandwidth: `_gekkota_xudp_on_configure_bandwidth_message`
-- (src/gekkota/gekkota_xudp.c) and `_gekkota_xudp_on_configure_throttle_message`.
use gekkota.Base.{ℕ, ◌*◌, ◌/◌, ◌%◌, ◌≡◌, ◌⊎◌, inl, inr, ◌↔◌, arith, false}
use gekkota.Base.{u32, ltb, ◌==◌, ◌&&◌, if◌then◌else◌, Bool-cases, NetOrder, ==_true→eq}
use gekkota.Xudp.Types.{Client}

abbrev pub max_window_size : ℕ
max_window_size = 32768

abbrev pub min_window_size : ℕ
min_window_size = 4096

abbrev pub smaller : ℕ → ℕ → ℕ
smaller a b = if ltb a b then a else b

abbrev pub clamped : ℕ → ℕ
clamped n =
    if ltb n min_window_size
    then min_window_size
    else if ltb max_window_size n
    then max_window_size
    else n

-- `GEKKOTA_XUDP_CLIENT_WINDOW_SIZE_SCALE` is `64 * 1024` without parentheses, so dividing by it
-- divides by 64 and multiplies by 1024.
unfoldable pub scaled : (bandwidth : ℕ) → ℕ
scaled bandwidth = u32 (bandwidth / 64 * 1024 * min_window_size)

unfoldable pub window_for : (incoming outgoing : ℕ) → ℕ
unfolding scaled
window_for incoming outgoing =
    if (incoming == 0) && (outgoing == 0)
    then max_window_size
    else clamped (scaled (smaller incoming outgoing))

module _ (o : NetOrder) where
  -- The host's outgoing bandwidth, the message's numbers, the client.
  unfoldable pub on_configure_bandwidth :
      (host_outgoing : ℕ) → (incoming outgoing : ℕ) → Client → Client
  unfolding window_for
  on_configure_bandwidth host_outgoing incoming outgoing c = record c {
    incoming_bandwidth = o.ntoh32 incoming;
    outgoing_bandwidth = o.ntoh32 outgoing;
    window_size = window_for (o.ntoh32 incoming) host_outgoing;
  }

  unfoldable pub on_configure_throttle : (interval acceleration deceleration : ℕ) → Client → Client
  on_configure_throttle interval acceleration deceleration c = record c {
    packet_throttle_interval = o.ntoh32 interval;
    packet_throttle_acceleration = o.ntoh32 acceleration;
    packet_throttle_deceleration = o.ntoh32 deceleration;
  }

clamped-scaled : (b : ℕ) → (b / 64 % 1024 ≡ 0) ↔ (clamped (scaled b) ≡ 4096)
unfolding scaled
clamped-scaled b =
    let e : scaled b ≡ b / 64 % 1024 * 4194304 = omega arith in
    (ground (arith, e), ground (arith, e))

clamped-scaled_max : (b : ℕ) → ¬ (b / 64 % 1024 ≡ 0) → clamped (scaled b) ≡ 32768
unfolding scaled
clamped-scaled_max b h =
    let e : scaled b ≡ b / 64 % 1024 * 4194304 = omega arith in ground (arith, e)

-- When the client's new incoming bandwidth and the host's outgoing bandwidth are not both 0, a
-- CONFIGURE_BANDWIDTH message leaves the client with the least or the greatest window, never one
-- between, and with the least exactly when the smaller bandwidth in units of 64 is a multiple of
-- 1024.
pub on_configure_bandwidth-extreme :
    (o : NetOrder) (host_outgoing incoming outgoing : ℕ) (c : Client)
    → ((o.ntoh32 incoming == 0) && (host_outgoing == 0)) ≡ false
    → (((on_configure_bandwidth o host_outgoing incoming outgoing c).window_size ≡ 4096)
        ⊎ ((on_configure_bandwidth o host_outgoing incoming outgoing c).window_size ≡ 32768))
      × ((smaller (o.ntoh32 incoming) host_outgoing / 64 % 1024 ≡ 0)
          ↔ ((on_configure_bandwidth o host_outgoing incoming outgoing c).window_size ≡ 4096))
unfolding on_configure_bandwidth window_for
on_configure_bandwidth-extreme o host_outgoing incoming outgoing c h = rw (h) (
  elim (Bool-cases (smaller (o.ntoh32 incoming) host_outgoing / 64 % 1024 == 0)) [
    | inl e ↦
        inl ((clamped-scaled (smaller (o.ntoh32 incoming) host_outgoing)).0 (==_true→eq _ _ e))
    | inr e ↦
        inr (clamped-scaled_max (smaller (o.ntoh32 incoming) host_outgoing) (==_false→ne _ _ e))
  ],
  clamped-scaled (smaller (o.ntoh32 incoming) host_outgoing),
)
  where
    ==_false→ne : (a b : ℕ) → (a == b) ≡ false → ¬ (a ≡ b)
    ==_false→ne a b e q = ground arith
