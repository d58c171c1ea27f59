-- ===== src/Bits.antt =====
-- proto/bit_writer.h and proto/bit_reader.h: a sequence of bits kept in machine words. Widths are
-- in bits; the types of words and of values are uint32_t or uint64_t.
pub mod Shift
pub mod Masks
pub mod Fields
pub mod Writer
pub mod Reader
mod Tests
