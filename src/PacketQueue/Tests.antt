-- ===== src/PacketQueue/Tests.antt =====
-- Runs of packet_queue.h, and the theorems at small queues.
use udp_stuff.Base.{
  ℕ, ◌%◌, ◌^◌, ◌<◌, ◌≡◌, refl, arith, Bool, true, not, some, [], ◌∷◌, ◌++◌, Bytes, length, drop,
  if◌then◌else◌, done, throws, fault, runtime_error, find, emplace, ◌==◌, filterb,
}
use udp_stuff.PacketQueue.Descr.{PacketDescr, empty, make}
use udp_stuff.PacketQueue.Loop.{range}
use udp_stuff.PacketQueue.Recv.{
  PacketRecvQueue, new_recv_queue, resolve_seq, compute_range_size, no_size, find_missing_packets,
  copy_data,
}
use udp_stuff.PacketQueue.Recv.Resolve.{
  IsRanked, LeadsTo, resolve_seq-LeadsTo, resolve_seq_unmapped,
}
use udp_stuff.PacketQueue.Recv.Missing.{all, has_packet, find_missing_packets_lem}
use udp_stuff.PacketQueue.Recv.Copy.{AllFull, payload, copy_data_lem}
use udp_stuff.PacketQueue.Send
use udp_stuff.PacketQueue.Send.{
  PacketSendQueue, new_send_queue, next_seq, push_packet, push_buffer, push_from, move_packet_up,
}
use udp_stuff.PacketQueue.Send.Push.{chunks, join, kept_or}
use udp_stuff.PacketQueue.Send.Pieces.{push_buffer_lem}
use udp_stuff.Base.{u16, sub16, get_elem?}
use udp_stuff.PacketQueue.Send.Keep.{move_packet_up_lem}
use udp_stuff.PacketQueue.Transfer.{copy_data-push_buffer}

abbrev plenty : ℕ → Bool
plenty n = true

abbrev packet : Bytes → PacketDescr
packet b = record { size = length b; block = some b }

-- Numbers 0xffff and 1 hold data, 2 holds a control structure, and 0 is missing.
abbrev received : PacketRecvQueue
received = record {
  start_seq = 0xffff;
  end_seq = 2;
  packets = (0xffff, packet (1 ∷ 2 ∷ [])) ∷ (1, packet (3 ∷ 4 ∷ [])) ∷ (2, packet (5 ∷ [])) ∷ [];
  seq_mapping = [];
}

received_missing : find_missing_packets received 0xffff 3 [] ≡ done (0 ∷ [])
unfolding find_missing_packets find
received_missing = refl

received_sizes :
    (compute_range_size received 1 3 ≡ done 2)
    × (compute_range_size received 0xffff 3 ≡ done no_size)
unfolding compute_range_size find
received_sizes = (refl, refl)

received_copies :
    (copy_data received (0 ∷ 0 ∷ 9 ∷ []) 1 3 ≡ done (3 ∷ 4 ∷ 9 ∷ []))
    × (copy_data received (0 ∷ 0 ∷ 9 ∷ []) 0 3 ≡ throws runtime_error)
    × (copy_data received (0 ∷ []) 1 3 ≡ fault)
unfolding copy_data find
received_copies = (refl, refl, refl)

abbrev same : ℕ → ℕ
same i = i

resolves : (i : ℕ) → i < 2 ^ 16 → resolve_seq received i ≡ done (same i)
unfolding find
resolves i h = resolve_seq_unmapped received i refl

received-AllFull : AllFull received
unfolding find
received-AllFull = record { full = λ k d e. ground arith }

find_missing_packets_example :
    find_missing_packets received 0xffff 3 (7 ∷ [])
    ≡ done (7 ∷ filterb (λ i. not (has_packet received same i)) (range 0xffff 3))
find_missing_packets_example =
    find_missing_packets_lem received same resolves 0xffff 3 (7 ∷ []) (omega arith) (omega arith)

copy_data_example : copy_data received (0 ∷ 0 ∷ 9 ∷ []) 1 3 ≡ (
    if all (has_packet received same) (range 1 3)
    then done (
        payload received same (range 1 3)
        ++ drop (length (payload received same (range 1 3))) (0 ∷ 0 ∷ 9 ∷ []))
    else throws runtime_error)
unfolding find
copy_data_example =
    copy_data_lem received same resolves received-AllFull (0 ∷ 0 ∷ 9 ∷ []) 1 3 (omega arith)
      (omega arith) (omega arith) (omega arith)

-- 9 stands for 5, and 5 for 3.
abbrev mapped : PacketRecvQueue
mapped = record new_recv_queue { seq_mapping = (9, 5) ∷ (5, 3) ∷ [] }

abbrev rank : ℕ → ℕ
rank s = s % 2 ^ 16

mapped-IsRanked : IsRanked mapped.seq_mapping rank
unfolding find
mapped-IsRanked = record { falls = λ s t e. ground arith; few = λ s. omega arith }

resolve_seq_example : (r : ℕ) × (resolve_seq mapped 9 ≡ done r) × LeadsTo mapped.seq_mapping r 9
resolve_seq_example = resolve_seq-LeadsTo mapped rank 9 mapped-IsRanked

chain_of_mapped : resolve_seq mapped 9 ≡ done 3
unfolding resolve_seq find
chain_of_mapped = refl

abbrev buffer : Bytes
buffer = 1 ∷ 2 ∷ 3 ∷ 4 ∷ 5 ∷ 6 ∷ []

abbrev sender : PacketSendQueue
sender = record new_send_queue { mtu = 4 }

abbrev sent : PacketSendQueue
sent = record {
  mtu = 4;
  start_seq = 1;
  end_seq = 2;
  packets = (1, packet (1 ∷ 2 ∷ 3 ∷ 4 ∷ [])) ∷ (2, packet (5 ∷ 6 ∷ [])) ∷ [];
}

push_buffer_run : push_buffer plenty sender buffer 6 ≡ done sent
unfolding push_buffer Send.push_packet make find emplace
push_buffer_run = refl

-- A queue that has a packet under the next number: the first piece is lost.
abbrev occupied : PacketSendQueue
occupied = record sender { packets = (1, packet (9 ∷ [])) ∷ [] }

piece_lost :
    push_buffer plenty occupied buffer 6
    ≡ done (record sent { packets = (1, packet (9 ∷ [])) ∷ (2, packet (5 ∷ 6 ∷ [])) ∷ [] })
unfolding push_buffer Send.push_packet make find emplace
piece_lost = refl

push_buffer_example :
    let pieces = chunks 7 4 buffer in
    (s : PacketSendQueue) × (push_buffer plenty occupied buffer 6 ≡ done s)
    × (join pieces ≡ buffer)
    × (s.end_seq ≡ 2)
    × (s.mtu ≡ 4)
    × (s.start_seq ≡ 1)
    × ((k : ℕ)
        → find (u16 k) s.packets
          ≡ kept_or (find (u16 k) occupied.packets) (get_elem? pieces (sub16 (u16 k) 1)))
push_buffer_example =
    push_buffer_lem plenty occupied buffer (λ n. refl) (omega arith) (omega arith) (omega arith)
      (omega arith)

abbrev arrived : PacketRecvQueue
arrived = record new_recv_queue { packets = sent.packets }

transfer_example : copy_data arrived (0 ∷ 0 ∷ 0 ∷ 0 ∷ 0 ∷ 0 ∷ 7 ∷ []) 1 3 ≡ done (buffer ++ 7 ∷ [])
transfer_example =
    copy_data-push_buffer plenty 4 buffer (0 ∷ 0 ∷ 0 ∷ 0 ∷ 0 ∷ 0 ∷ 7 ∷ []) arrived {s = sent}
      (λ n. refl) (omega arith) (omega arith) (omega arith) (omega arith) (omega arith)
      (omega arith) push_buffer_run refl (λ k. refl)

move_packet_up_example :
    ((move_packet_up sent 1).end_seq ≡ 3)
    × ((k : ℕ)
        → find k (move_packet_up sent 1).packets ≡ (
            if k == 3
            then some (packet (1 ∷ 2 ∷ 3 ∷ 4 ∷ []))
            else if k == 1
            then some empty
            else find k sent.packets))
unfolding find
move_packet_up_example = move_packet_up_lem sent 1 (packet (1 ∷ 2 ∷ 3 ∷ 4 ∷ [])) refl refl

abbrev at_the_end : PacketSendQueue
at_the_end = record sender { end_seq = 0xffff }
