-- ===== src/Udp4.antt =====
-- udp4.h: raw UDP over IPv4.
pub mod Checksum
pub mod SendQueue
pub mod Driver
pub mod Filter
pub mod Slots
mod Tests
mod DriverTests
mod FilterTests
