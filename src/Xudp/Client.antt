-- ===== src/Xudp/Client.antt =====
-- src/gekkota/gekkota_xudpclient.c: what a client queues, sends, hands out and closes.
pub mod Outgoing
pub mod Send
pub mod Fragments
pub mod Incoming
pub mod Receive
pub mod Order
pub mod Arrivals
pub mod Close
pub mod Closed
pub mod Delivery
pub mod Queueing
pub mod Getters
pub mod Compression
pub mod Compressed
mod Tests
