-- ===== src/Buffers.antt =====
-- packet_buffer.h, a ring of packets, and buffer.h, blocks of bytes that are filled and emptied.
pub mod Packets
pub mod Blocks
mod Tests
mod BlockTests
