-- ===== src/Buffers/Blocks/Ring/Out.antt =====
-- buffer.h, `OutBufWrapper`: the part of a ring that can be emptied.
use udp_stuff.Base.{ℕ, ◌+◌, ◌-◌, leb, if◌then◌else◌}
use udp_stuff.Buffers.Blocks.Ring.{Ring}

abbrev pub start : Ring → ℕ
start q = q.b

unfoldable pub left : Ring → ℕ
left q = if leb q.b q.proc_e then q.proc_e - q.b else q.size - q.b

abbrev at : Ring → ℕ → Ring
at q b = record { size = q.size; b = b; proc_e = q.proc_e; e = q.e }

unfoldable pub finish : Ring → Ring
finish q = if leb q.b q.proc_e then at q q.proc_e else at q 0

unfoldable pub shift : Ring → ℕ → Ring
shift q s = if leb q.size (q.b + s) then at q 0 else at q (q.b + s)
