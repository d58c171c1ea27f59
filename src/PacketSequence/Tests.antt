-- ===== src/PacketSequence/Tests.antt =====
-- A sequence of 10 bytes in packets of 4, whose numbers go round at 2 ^ 8.
use udp_stuff.Base.{ℕ, ◌^◌, ◌<◌, ◌≡◌, refl, arith, none, done, throws, out_of_range}
use udp_stuff.PacketSequence.{PacketSequence, PacketLoc, packet_loc}
use udp_stuff.PacketSequence.Tiling.{Covers, nth_seq, packet_loc-Covers}

abbrev sequence : PacketSequence
sequence = record { seq_start = 255; data_size = 10; mtu = 4; block = none }

sequence_locs :
    (packet_loc 8 sequence 255 ≡ done (record { offset = 0; size = 4 }))
    × (packet_loc 8 sequence 1 ≡ done (record { offset = 8; size = 2 }))
    × (packet_loc 8 sequence 2 ≡ throws out_of_range)
unfolding packet_loc
sequence_locs = (refl, refl, refl)

packet_loc_example :
    ((l : PacketLoc) × (packet_loc 8 sequence (nth_seq 8 sequence 2) ≡ done l)
      × Covers sequence 9 l)
    × ((k : ℕ) (l : PacketLoc)
        → k < 2 ^ 8
        → packet_loc 8 sequence (nth_seq 8 sequence k) ≡ done l
        → Covers sequence 9 l
        → k ≡ 2)
packet_loc_example = packet_loc-Covers 8 sequence 9 (omega arith) (omega arith)
