-- ===== src/Xudp/Host/Access.antt =====
-- What a program reads of a host and sets (src/gekkota/gekkota_xudp.c).
use gekkota.Base.{ℕ, Option, none, some, true, Result, ok, err, null_argument, length}
use gekkota.Xudp.Host.Bandwidth.{Host}

unfoldable pub get_max_client : Option Host → Result ℕ
get_max_client none = err null_argument
get_max_client (some h) = ok (length h.clients)

unfoldable pub get_incoming_bandwidth : Option Host → Result ℕ
get_incoming_bandwidth none = err null_argument
get_incoming_bandwidth (some h) = ok h.incoming_bandwidth

unfoldable pub set_incoming_bandwidth :
    Option Host → (bandwidth : ℕ) → Option Host × Result (Unit {0})
set_incoming_bandwidth none bandwidth = (none, err null_argument)
set_incoming_bandwidth (some h) bandwidth =
    (some (record h { incoming_bandwidth = bandwidth; reconfigure_bandwidth = true }), ok tt)

unfoldable pub get_outgoing_bandwidth : Option Host → Result ℕ
get_outgoing_bandwidth none = err null_argument
get_outgoing_bandwidth (some h) = ok h.outgoing_bandwidth

unfoldable pub set_outgoing_bandwidth :
    Option Host → (bandwidth : ℕ) → Option Host × Result (Unit {0})
set_outgoing_bandwidth none bandwidth = (none, err null_argument)
set_outgoing_bandwidth (some h) bandwidth =
    (some (record h { outgoing_bandwidth = bandwidth; reconfigure_bandwidth = true }), ok tt)
