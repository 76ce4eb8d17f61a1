-- ===== src/Xudp/Client/Getters.antt =====
-- What a program reads of a client (src/gekkota/gekkota_xudpclient.c). A `GekkotaXudpClient *` is an
-- `Option Client`, with `none` for NULL.
use gekkota.Base.{ℕ, Option, none, some, Bool, Result, ok, err, null_argument, length}
use gekkota.Xudp.Types.{Client, ClientState, EndPoint}

unfoldable pub get_channel_count : Option Client → Result ℕ
get_channel_count none = err null_argument
get_channel_count (some c) = ok (length c.channels)

unfoldable pub get_compression_level : Option Client → Result ℕ
get_compression_level none = err null_argument
get_compression_level (some c) = ok c.compression_level

-- `socket_endpoint` is what `gekkota_socket_get_local_endpoint` gives for the host's socket.
unfoldable pub get_local_endpoint : (socket_endpoint : EndPoint) → Option Client → Result EndPoint
get_local_endpoint socket_endpoint none = err null_argument
get_local_endpoint socket_endpoint (some c) = ok socket_endpoint

-- The end point may be NULL.
unfoldable pub get_remote_endpoint : Option Client → Result (Option EndPoint)
get_remote_endpoint none = err null_argument
get_remote_endpoint (some c) = ok c.remote_endpoint

unfoldable pub get_state : Option Client → Result ClientState
get_state none = err null_argument
get_state (some c) = ok c.state

-- The interval, the acceleration and the deceleration.
unfoldable pub get_throttle_configuration : Option Client → Result (ℕ × ℕ × ℕ)
get_throttle_configuration none = err null_argument
get_throttle_configuration (some c) =
    ok (c.packet_throttle_interval, c.packet_throttle_acceleration, c.packet_throttle_deceleration)

unfoldable pub get_is_multicast_group_member : Option Client → Result Bool
get_is_multicast_group_member none = err null_argument
get_is_multicast_group_member (some c) = ok c.is_multicast_group_member
