-- ===== src/Buffers/Blocks/Ptr.antt =====
-- buffer.h, `PtrBuf`: the end of a block and the length that is left of it, with `len_t` as uint32_t.
use udp_stuff.Base.{ℕ, ◌+◌, ◌-◌, ◌==◌, Bool, sub32}
use udp_stuff.Buffers.Blocks.{BlockOps}

pub record PtrBuf : Type 0 where
  pub buf_e : ℕ
  pub l : ℕ

abbrev pub make : ℕ → ℕ → PtrBuf
make buf l = record { buf_e = buf + l; l = l }

abbrev pub shift : PtrBuf → ℕ → PtrBuf
shift b v = record { buf_e = b.buf_e; l = sub32 b.l v }

abbrev pub is_empty : PtrBuf → Bool
is_empty b = b.l == 0

abbrev pub left : PtrBuf → ℕ
left b = b.l

abbrev pub start : PtrBuf → ℕ
start b = b.buf_e - b.l

abbrev pub finish : PtrBuf → PtrBuf
finish b = record { buf_e = b.buf_e; l = 0 }

abbrev pub ops : BlockOps PtrBuf
ops = record { left = left; start = start; shift = shift; finish = finish }
