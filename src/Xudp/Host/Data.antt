-- ===== src/Xudp/Host/Data.antt =====
-- `_gekkota_xudp_on_reliable_data_message`, `_gekkota_xudp_on_unreliable_data_message` and
-- `_gekkota_xudp_on_unsequenced_data_message` (src/gekkota/gekkota_xudp.c). The handlers return the
-- result of queueing the message, which is 0 when it is queued.
use gekkota.Base.{
  ℕ, ◌+◌, List, [], Option, none, some, Bool, Result, ok, err, NetOrder, Run, done, ◌>>=◌,
}
use gekkota.Base.{length, take, drop, ltb, not, ◌&&◌, if◌then◌else◌}
use gekkota.Buffer.{Allocator}
use gekkota.Packet
use gekkota.Packet.{Object}
use gekkota.Xudp.Types.{Client, Message, Packet, EndPoint, is_set, compressed_flag}
use gekkota.Xudp.Client.Close.{is_open}
use gekkota.Xudp.Client.Incoming.{queue_incoming_message}
use gekkota.Xudp.Unsequenced.{accept}
use gekkota.Xudp.Host.Accept.{Code, discarded, processed, failed}

-- The client, the datagram's bytes that are left, and the result.
pub record Arrived : Type 0 where
  pub client : Client
  pub rest : List ℕ
  pub code : Code

-- A packet object by its bytes and flags.
unfoldable pub as_packet : Object → Packet
unfolding Packet.block_bytes
as_packet p = record { bytes = Packet.block_bytes p.buffer.block p.buffer.len; flags = p.flags }

-- Whether a client takes data on a channel.
unfoldable pub takes_data : Client → (channel_id : ℕ) → Bool
takes_data c channel_id = ltb channel_id (length c.channels) && is_open c.state

unfoldable pub code_of : Bool → Code
code_of queued = if queued then discarded else failed

-- The packet's flag for the message's.
unfoldable pub with_compressed : Message → (flags : ℕ) → ℕ
with_compressed m flags = if is_set m.flags compressed_flag then flags + 4 else flags

-- What the handlers are given: the allocator and whether the other allocations succeed, where the
-- data stand in memory, and the sender of the datagram.
pub record Receipt : Type 0 where
  pub memory : Allocator
  pub alloc_packet : Bool
  pub alloc_message : Bool
  pub address : ℕ
  pub sender : EndPoint

module _ (o : NetOrder) (e : Receipt) where
  unfoldable pub queue_packet : Client → Message → (rest : List ℕ) → Result Object → Run Arrived
  unfolding as_packet code_of queue_incoming_message
  queue_packet c m rest (err x) = done (record { client = c; rest = rest; code = failed })
  queue_packet c m rest (ok p) =
      queue_incoming_message o e.alloc_message c m (as_packet p) 0 e.sender >>= λ r.
      done (record { client = r.0; rest = rest; code = code_of r.1 })

  -- The data of the message, which are there, go to a packet and that to the channel.
  unfoldable pub queue_data : Client → Message → (bytes : List ℕ) → (len flags : ℕ) → Run Arrived
  unfolding queue_packet with_compressed Packet.new_2
  queue_data c m bytes len flags = queue_packet c m (drop len bytes) (
      Packet.new_2 e.memory e.alloc_packet
        (some (record {
          block = some (record { address = e.address; bytes = take len bytes });
          len = len;
        }))
        (with_compressed m flags))

  unfoldable pub on_reliable_data : Client → Message → (len : ℕ) → (bytes : List ℕ) → Run Arrived
  unfolding takes_data queue_data
  on_reliable_data c m len bytes =
      if not (takes_data c m.channel_id)
      then done (record { client = c; rest = bytes; code = failed })
      else if ltb (length bytes) (o.ntoh16 len)
      then done (record { client = c; rest = []; code = discarded })
      else queue_data c m bytes (o.ntoh16 len) 1

  unfoldable pub on_unreliable_data : Client → Message → (len : ℕ) → (bytes : List ℕ) → Run Arrived
  unfolding takes_data queue_data
  on_unreliable_data c m len bytes =
      if not (takes_data c m.channel_id)
      then done (record { client = c; rest = bytes; code = discarded })
      else if ltb (length bytes) (o.ntoh16 len)
      then done (record { client = c; rest = []; code = discarded })
      else queue_data c m bytes (o.ntoh16 len) 0

  unfoldable pub by_window :
      Client → Message → (len : ℕ) → (bytes : List ℕ) → Option (ℕ × List ℕ) → Run Arrived
  unfolding queue_data
  by_window c m len bytes none =
      done (record { client = c; rest = drop len bytes; code = processed })
  by_window c m len bytes (some (first, window)) =
      queue_data (record c { incoming_unsequenced_group = first; unsequenced_window = window }) m
        bytes len 2

  unfoldable pub on_unsequenced_data :
      Client → Message → (group len : ℕ) → (bytes : List ℕ) → Run Arrived
  unfolding takes_data by_window accept
  on_unsequenced_data c m group len bytes =
      if not (takes_data c m.channel_id)
      then done (record { client = c; rest = bytes; code = discarded })
      else if ltb (length bytes) (o.ntoh16 len)
      then done (record { client = c; rest = []; code = discarded })
      else by_window c m (o.ntoh16 len) bytes
          (accept c.incoming_unsequenced_group c.unsequenced_window (o.ntoh16 group))
