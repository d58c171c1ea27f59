-- ===== src/PacketQueue.antt =====
-- packet_queue.h: the queues of received and of sent packets, and the descriptor they hold.
pub mod Descr
pub mod Loop
pub mod Recv
pub mod Send
pub mod Transfer
mod Tests
