-- ===== src/Buffers/Blocks/Static.antt =====
-- buffer.h, `StaticBuf`: as PtrBuf, over an array of its own. Its constructor leaves `l` unset.
use udp_stuff.Base.{ℕ, ◌+◌, ◌-◌, ◌==◌, Bool, u32}
use udp_stuff.Buffers.Blocks.{BlockOps}

-- The position of the array's end, and `l`
pub record StaticBuf : Type 0 where
  pub buf_e : ℕ
  pub l : ℕ

abbrev pub shift : StaticBuf → ℕ → StaticBuf
shift b v = record { buf_e = b.buf_e; l = u32 (b.l + v) }

abbrev pub is_empty : StaticBuf → Bool
is_empty b = b.l == 0

abbrev pub left : StaticBuf → ℕ
left b = b.l

abbrev pub start : StaticBuf → ℕ
start b = b.buf_e - b.l

abbrev pub finish : StaticBuf → StaticBuf
finish b = record { buf_e = b.buf_e; l = 0 }

abbrev pub ops : BlockOps StaticBuf
ops = record { left = left; start = start; shift = shift; finish = finish }
