-- ===== src/Xudp/Host.antt =====
-- src/gekkota/gekkota_xudp.c: filling datagrams, timeouts, and the handlers of messages.
pub mod Datagram
pub mod Sending
pub mod Bounds
pub mod Conserves
pub mod Notify
pub mod Timeouts
pub mod Requeue
pub mod Connect
pub mod Accept
pub mod Handshake
pub mod Handlers
pub mod Flush
pub mod Limits
pub mod Filling
pub mod Keeping
pub mod Staying
pub mod Turns
pub mod Bandwidth
pub mod Progress
pub mod Caps
pub mod Sharing
pub mod Throttling
pub mod Data
pub mod Unanswered
pub mod Fragments
pub mod Reassembly
pub mod Dispatch
pub mod Broadcast
pub mod Waiting
pub mod Wire
pub mod Receive
pub mod Messages
pub mod Rest
pub mod Advance
pub mod Recede
pub mod Hanging
pub mod Authentic
pub mod Receiving
pub mod Reaches
pub mod Multicast
pub mod Access
pub mod Poll
pub mod Hasty
pub mod Create
mod Tests
