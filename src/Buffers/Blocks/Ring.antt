-- ===== src/Buffers/Blocks/Ring.antt =====
-- buffer.h, `DoubleBlockProcBuf`, `InBufWrapper` and `OutBufWrapper`: a ring that is filled at `e`,
-- processed up to `proc_e` and emptied at `b`.
pub mod In
pub mod Out
pub mod Wrap
use udp_stuff.Base.{ℕ, ◌-◌, ◌*◌, ltb, if◌then◌else◌}

pub record Ring : Type 0 where
  pub size : ℕ
  pub b : ℕ
  pub proc_e : ℕ
  pub e : ℕ

-- `clear` of a ring of two blocks
abbrev pub clear : ℕ → Ring
clear block_size = record { size = block_size * 2; b = 0; proc_e = 0; e = 0 }

-- `_left`
abbrev pub left_between : Ring → ℕ → ℕ → ℕ
left_between q b e = if ltb b e then e - b else q.size - b
