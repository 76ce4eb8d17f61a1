-- ===== src/Xudp/Host/Datagram.antt =====
-- The datagram that a host is filling for a client: the members `messages`, `buffers`,
-- `packetSize` and `headerFlags` of `_GekkotaXudp` (src/gekkota/gekkota_xudp_internal.h).
use gekkota.Base.{ℕ, ◌+◌, ◌-◌, ◌%◌, List, [], ◌∷◌, ◌++◌, length}
use gekkota.Xudp.Types.{Message}

pub data Piece : Type 0 where
  of_message : (size : ℕ) → Message → Piece
  of_data : List ℕ → Piece

-- The first of the buffers, for the datagram's header, is not in `buffers`.
pub record Datagram : Type 0 where
  pub size : ℕ
  pub header_flags : ℕ
  pub messages : List Message
  pub buffers : List Piece

abbrev pub max_messages : ℕ
max_messages = 32

abbrev pub max_buffers : ℕ
max_buffers = 65

-- What `_gekkota_xudp_send` starts a client's datagram with.
abbrev pub empty_datagram : (header_flags : ℕ) → Datagram
empty_datagram header_flags = record {
  size = 12;
  header_flags = header_flags;
  messages = [];
  buffers = [];
}

-- a - b on a size_t.
abbrev pub sub64 : ℕ → ℕ → ℕ
sub64 a b = (a + 18446744073709551616 - b % 18446744073709551616) % 18446744073709551616

-- The room that is left in a datagram, as the code computes it.
unfoldable pub room : (mtu : ℕ) → Datagram → ℕ
room mtu d = sub64 mtu d.size

unfoldable pub buffer_count : Datagram → ℕ
buffer_count d = length d.buffers + 1

abbrev pub add_message : (size : ℕ) → Message → Datagram → Datagram
add_message size m d = record d {
  size = d.size + size;
  messages = d.messages ++ (m ∷ []);
  buffers = d.buffers ++ (of_message size m ∷ []);
}

abbrev pub add_data : (len : ℕ) → List ℕ → Datagram → Datagram
add_data len bytes d = record d { size = d.size + len; buffers = d.buffers ++ (of_data bytes ∷ []) }
