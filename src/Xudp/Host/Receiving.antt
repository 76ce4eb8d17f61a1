-- ===== src/Xudp/Host/Receiving.antt =====
-- `_gekkota_xudp_receive` (src/gekkota/gekkota_xudp.c): the datagrams that the socket has.
mod Tests
use gekkota.Base.{ℕ, List, Option, none, some, Bool, true, false, NetOrder, Run, done, ◌>>=◌}
use gekkota.Xudp.Types.{EndPoint}
use gekkota.Xudp.Event.{Event}
use gekkota.Xudp.Host.Accept.{Code, discarded, processed, failed}
use gekkota.Xudp.Host.Dispatch.{Table}
use gekkota.Xudp.Host.Receive.{Cursor, Reception}
use gekkota.Xudp.Host.Messages.{World, read_messages}

-- What `gekkota_socket_receive` returns in turn: 0, a failure, or a datagram of at most 4096 bytes.
pub data Arrivals : Type 0 where
  drained broken : Arrivals
  arrives : (sender : EndPoint) → (bytes : List ℕ) → Arrivals → Arrivals

abbrev pub from_sender : World → EndPoint → World
from_sender w sender = record w { receipt = record w.receipt { sender = sender } }

module _ (o : NetOrder) (w : World) (fuel : ℕ) where
  -- The host's clients, the event and the result. A failure destroys the event; an event ends the
  -- call, and otherwise there is the next datagram. Each datagram gets the fuel.
  unfoldable pub receive_datagrams : Table → Arrivals → Run (Table × Option Event × Code)
  unfolding read_messages
  receive_datagrams t Arrivals.drained = done (t, none, discarded)
  receive_datagrams t Arrivals.broken = done (t, none, failed)
  receive_datagrams t (Arrivals.arrives sender bytes next) =
      read_messages o (from_sender w sender) bytes fuel
        (record { table = t; event = none; cursor = Cursor.unread })
      >>= λ r. elim r.1 [
        | false ↦ done (r.0.table, none, failed)
        | true ↦ elim r.0.event [
          | none ↦ receive_datagrams r.0.table next
          | some e ↦ done (r.0.table, some e, processed)
        ]
      ]
