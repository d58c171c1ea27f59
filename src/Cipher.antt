-- ===== src/Cipher.antt =====
-- crypto/block.h: AES with keys of 256 bits, from the instructions of the processor.
pub mod Vectors
pub mod Schedule
pub mod Sum
mod Tests
