-- ===== src/Xudp.antt =====
-- The protocol: src/gekkota/gekkota_xudp.c and gekkota_xudpclient.c with the clock they use.
pub mod Clock
pub mod Types
pub mod Event
pub mod Client
pub mod Timing
pub mod Window
pub mod Unsequenced
pub mod Acknowledge
mod Samples
mod Tests
pub mod Host
