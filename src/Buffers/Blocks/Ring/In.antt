-- ===== src/Buffers/Blocks/Ring/In.antt =====
-- buffer.h, `InBufWrapper`: the part of a ring that can be filled.
use udp_stuff.Base.{ℕ, ◌+◌, ◌-◌, leb, if◌then◌else◌}
use udp_stuff.Buffers.Blocks.Ring.{Ring}

abbrev pub start : Ring → ℕ
start q = q.e

unfoldable pub left : Ring → ℕ
left q = if leb q.b q.e then q.size - q.e else q.b - q.e - 1

abbrev at : Ring → ℕ → Ring
at q e = record { size = q.size; b = q.b; proc_e = q.proc_e; e = e }

unfoldable pub finish : Ring → Ring
finish q = if leb q.b q.e then at q 0 else at q (q.b - 1)

unfoldable pub shift : Ring → ℕ → Ring
shift q s = if leb q.size (q.e + s) then at q 0 else at q (q.e + s)
