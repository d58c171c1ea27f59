-- ===== src/Udp4Conn/Tests.antt =====
-- The theorems about datagrams at small ones.
use udp_stuff.Base.{ℕ, ◌≡◌, arith, Bool, true, some, [], ◌∷◌, ◌++◌, Bytes, length, done, ◌>>=◌}
use udp_stuff.PacketQueue.Recv.{push_packet}
use udp_stuff.Udp4Conn.{Connection, connect, recv_packet, send_packet}
use udp_stuff.Udp4Conn.Datagram.{recv_packet-send_packet}

abbrev plenty : ℕ → Bool
plenty n = true

abbrev peer : Connection
peer = connect 7 [] 0

recv_packet_example :
    (filled : Bytes) × (datagram : Bytes) × (send_packet true
        (0 ∷ 0 ∷ 0 ∷ 0 ∷ 0 ∷ [])
        0x102
        (8 ∷ 9 ∷ [])
        2
      ≡ done (filled, datagram))
    × (recv_packet plenty peer (record {
      result = some (length datagram);
      packet_buf = datagram ++ 0 ∷ [];
      from_addr = 5;
    })
        ≡ (push_packet plenty peer.recv_queue 0x102 (8 ∷ 9 ∷ 0 ∷ []) 2 >>= λ q.
            done (record peer { recv_queue = q; si_peer = 5 }, true)))
recv_packet_example =
    recv_packet-send_packet plenty peer 0x102 5 (0 ∷ 0 ∷ 0 ∷ 0 ∷ 0 ∷ []) (8 ∷ 9 ∷ []) (0 ∷ [])
      (omega arith) (omega arith) (omega arith)
