-- ===== src/Net.antt =====
-- net/tcpv4.cc and net/socket.h: TCP connections of two peers behind address translation.
pub mod Punch
pub mod Guard
mod Tests
