-- ===== src/Lib.antt =====
-- gekkota: a model of the networking library in src/gekkota, and its properties.
--
-- The library sends messages over UDP (the protocol XUDP). A host owns a socket and a table of
-- clients; a client has channels with sequence numbers, queues of incoming and outgoing messages, a
-- window, a throttle and, when it compresses, an LZF compressor. Packets are buffers of bytes with
-- flags. A call of the program queues messages on a client; the host's poll and flush send what is
-- queued, resend what is not acknowledged in time, and give each received message to a handler,
-- which acknowledges it and queues it for the program.
--
-- Files:
-- - Base: Boolean tests, lists, words of 8, 16 and 32 bits, byte order, errors, and `Run`, the
--   outcome of code that touches memory: a value, a fault (C leaves the behaviour undefined) or a
--   lack of fuel.
-- - Lzf: src/gekkota/gekkota_lzf.c. Lzf.Deflate is the loop of gekkota_lzf_deflate and Lzf.Inflate
--   that of gekkota_lzf_inflate, both over the bytes behind the buffers; Lzf.Api has the functions
--   around them (gekkota_lzf_new_1, _destroy, _set_compression_level, the lengths, deflate and
--   inflate with their buffers). Lzf.Format, Decode, Copies, Matches, Encode and Steps lead to
--   Lzf.RoundTrip; Lzf.Session and Lzf.Overflow are about the whole functions.
-- - Buffer: src/gekkota/gekkota_buffer.c.
-- - Xudp.Clock: src/gekkota/gekkota_time.c and gekkota_time.h. Xudp.Types: the messages, flags,
--   packets, channels and clients of gekkota_xudp_internal.h, gekkota_xudpclient_internal.h,
--   gekkota_packet_internal.h and gekkota_bit.h.
-- - Xudp.Client: src/gekkota/gekkota_xudpclient.c. Outgoing queues one message
--   (_gekkota_xudpclient_queue_outgoing_message and _queue_acknowledgement), Send is
--   gekkota_xudpclient_send, Incoming is _gekkota_xudpclient_queue_incoming_message, Receive is
--   gekkota_xudpclient_receive, Close has destroy, reset and the ways to close. Fragments, Order,
--   Arrivals, Queueing, Delivery and Closed are about them. Compression is the compression step
--   (_gekkota_xudpclient_deflate, _inflate and _get_lzf), Compressed is about it, and Getters has
--   what a program reads.
-- - Packet: src/gekkota/gekkota_packet.c.
-- - Crc32: src/gekkota/gekkota_crc32.c. Hash: gekkota_hash_16 and _32 of src/gekkota/gekkota.c.
-- - IpAddress: src/gekkota/gekkota_ipaddress.c (IpAddress.Kinds: its tests and its text).
--   IpEndPoint: src/gekkota/gekkota_ipendpoint.c, over a store of addresses.
-- - Intrusive: src/gekkota/gekkota_list.c and gekkota_list.h, over a store of links.
--   Intrusive.Rings says when links are those of a list; Inserts, Removes and Counts are about the
--   functions.
-- - Memory: src/gekkota/gekkota_memory.c, over lists of the addresses of its blocks.
-- - Xudp.Event: the events of src/gekkota/gekkota_event.c.
-- - Xudp.Host: src/gekkota/gekkota_xudp.c, built without CRC32_ENABLED. Datagram is the datagram
--   that a host fills; Sending has _gekkota_xudp_send_acknowledgements, _send_reliable and
--   _send_unreliable; Flush has _gekkota_xudp_send, a turn for each client in each round; Timeouts
--   is _gekkota_xudp_check_for_timeouts and Notify has _notify_connect and _notify_disconnect;
--   Connect and Accept have gekkota_xudp_connect_3 and the handlers of CONNECT and
--   VALIDATE_CONNECT; Handlers has those without data, Data those with data and Fragments that of
--   DATA_FRAGMENT; Bandwidth is _gekkota_xudp_throttle_bandwidth, Dispatch is
--   _gekkota_xudp_dispatch and Broadcast is gekkota_xudp_broadcast. Wire reads the bytes of a
--   datagram, Receive is _gekkota_xudp_get_message_handler_args, Messages has the table of handlers
--   and the loop over a datagram's messages, and Receiving is _gekkota_xudp_receive; Poll has
--   gekkota_xudp_poll and _flush, a moment of the clock and the socket for each round, Create makes
--   and destroys a host, Multicast joins a group and Access has the bandwidths; Rest, Advance,
--   Recede and Hanging are about the loop's end, Hasty about how long a poll waits, Authentic and
--   Reaches about whom a datagram is taken for. Bounds, Limits, Filling, Keeping, Staying and Turns
--   are about the sizes of datagrams; Conserves, Requeue, Handshake, Unanswered, Reassembly and
--   Waiting about single functions; Progress, Caps, Sharing and Throttling about the bandwidth.
-- - Xudp.Timing, Window, Unsequenced and Acknowledge: parts of the message handlers of
--   src/gekkota/gekkota_xudp.c, with _gekkota_xudpclient_throttle.
--
-- A pointer that may be NULL is an Option; a function returns the objects it leaves behind next to
-- its result; the memory for a new object is an argument that says whether the allocation succeeds.
-- The results of functions that return a count of references are int32_t. The indices of the
-- compressor and the decompressor are int32_t too: what overflows there is a fault. A packet that
-- is given back while a datagram refers to its bytes is a fault when the datagram is sent. The
-- intrusive lists of the protocol and of the memory pool are lists of values, which Intrusive
-- justifies. Unsigned arithmetic wraps as it is written; sizes are those of a 64-bit machine.
--
-- Fuel: the decompressor reads a byte in each round and gets a round for each byte of its source
-- and one more; the compressor advances in each round likewise; sending fragments advances by at
-- least a byte in each round and gets one round more than the packet has bytes. Each round of the
-- loops that throttle the bandwidth marks a client or is the last one, so two rounds more than
-- there are clients are enough. Counting a list takes one round more than it has elements. The
-- rounds of _gekkota_xudp_send get whatever fuel they are given, since a flush and a socket may
-- keep them going. Receiving gets fuel for two rounds more than a datagram has bytes: then the loop
-- over its messages has ended, or it has no end.
--
-- Arguments that stand for other code: the allocator, the byte-order functions of the C library
-- (`NetOrder`: inverse pairs), the compression and decompression step of a client, flushing the
-- host when a client is closed (which need not return when a client is closed inside of a round),
-- the packets that the program keeps references to, sending to the socket, reading and writing an
-- address as a text, and the tests of the system's headers on IPv6 addresses.
--
-- Not modelled: making a host and connecting by name, which try the addresses of the name in turn,
-- resolving names, the wrappers of the operating system (sockets, names, modules, strings) and
-- gstring.c, a file of GLib.
pub mod Base
pub mod Lzf
pub mod Buffer
pub mod Crc32
pub mod Hash
pub mod Packet
pub mod Intrusive
pub mod IpAddress
pub mod IpEndPoint
pub mod Memory
pub mod Xudp
