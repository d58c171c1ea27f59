-- ===== src/Buffers/Tests.antt =====
-- A ring of four places with three packets that go round.
use udp_stuff.Base.{ℕ, ◌≡◌, refl, [], ◌∷◌, some}
use udp_stuff.Buffers.Packets.{PacketBuffer, buffer_length, next_pos, prev_pos}

abbrev ring : PacketBuffer ℕ
ring = record { packets = some (3 ∷ 9 ∷ 1 ∷ 2 ∷ []); size = 4; start = 2; end = 1; seq_start = 50 }

ring_length : buffer_length ring ≡ 3
unfolding buffer_length
ring_length = refl

ring_ends : (next_pos ring 3 ≡ 0) × (prev_pos ring 0 ≡ 3)
unfolding next_pos prev_pos
ring_ends = (refl, refl)
