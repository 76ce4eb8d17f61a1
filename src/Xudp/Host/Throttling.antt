-- ===== src/Xudp/Host/Throttling.antt =====
-- `_gekkota_xudp_throttle_bandwidth` (src/gekkota/gekkota_xudp.c) as a whole.
use gekkota.Base.{Run}
use gekkota.Base.{Ends}
use gekkota.Xudp.Types.{Client}
use gekkota.Xudp.Client.Close.{Outcome}
use gekkota.Xudp.Host.Caps.{AllCapped}
use gekkota.Xudp.Host.Bandwidth
use gekkota.Xudp.Host.Bandwidth.{Host, Budget, Throttling}

-- A run that comes to an end or divides by 0, and leaves every client's throttle within its limit
-- and that within 32.
unfoldable pub KeepsCaps : Run (Host × Outcome) → Type 0
KeepsCaps r = Ends Unit (λ q. AllCapped q.0.clients) r
