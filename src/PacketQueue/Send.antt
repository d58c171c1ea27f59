-- ===== src/PacketQueue/Send.antt =====
-- packet_queue.h, `PacketSendQueue`: packets kept until they are acknowledged.
pub mod Push
pub mod Pieces
pub mod Keep
use udp_stuff.Base.{
  ℕ, zero, suc, ◌+◌, ◌-◌, ◌%◌, ◌^◌, Bool, true, false, Option, none, some, List, [], ◌∷◌, ◌++◌,
  length, take, drop, Bytes, ◌==◌, ltb, if◌then◌else◌, Outcome, done, throws, fault, hangs, ◌>>=◌,
  u16, u32, sub32, find, emplace, assign, erase,
}
use udp_stuff.PacketQueue.Descr.{PacketDescr, make, move, clear}
use udp_stuff.PacketQueue.Loop.{Flow, next, leave, for_seq, all_seqs}
use udp_stuff.PacketQueue.Recv.{size_of_packets, size_of_data_packets, erase_found, ended}

pub record PacketSendQueue : Type 0 where
  pub mtu : ℕ
  pub start_seq : ℕ
  pub end_seq : ℕ
  pub packets : List (ℕ × PacketDescr)

abbrev pub new_send_queue : PacketSendQueue
new_send_queue = record { mtu = 1024; start_seq = 1; end_seq = 0; packets = [] }

unfoldable pub packets_count : PacketSendQueue → ℕ
packets_count q = length q.packets

unfoldable pub packets_size : PacketSendQueue → ℕ
unfolding size_of_packets
packets_size q = size_of_packets q.packets

unfoldable pub data_packets_size : PacketSendQueue → ℕ
unfolding size_of_data_packets
data_packets_size q = size_of_data_packets q.packets

abbrev pub clear_one : ℕ → PacketSendQueue → PacketSendQueue
clear_one i q = record q { packets = erase_found i q.packets }

unfoldable pub clear_range : PacketSendQueue → ℕ → ℕ → Outcome PacketSendQueue
unfolding for_seq
clear_range q start end =
    for_seq (λ i t. done (next (clear_one i t))) all_seqs start end q >>= λ r. done (ended r)

-- `++end_seq`
abbrev pub next_seq : PacketSendQueue → ℕ
next_seq q = u16 (q.end_seq + 1)

-- The size is a `uint32_t`; the source is the bytes from `data` on.
unfoldable pub push_packet : (ℕ → Bool) → PacketSendQueue → ℕ → Bytes → Outcome PacketSendQueue
unfolding make
push_packet malloc q size src = do
  d ← make malloc size src
  done (record q { end_seq = next_seq q; packets = emplace (next_seq q) d q.packets })

-- The descriptor is moved into the new element, and its shell stays under the old number.
-- Where the new number is taken, nothing is moved, as in libstdc++ for C++17.
-- (The standard lets `emplace` move the descriptor, and destroy it.)
unfoldable pub move_packet_up : PacketSendQueue → ℕ → PacketSendQueue
unfolding move
move_packet_up q seq =
    let new_seq = next_seq q in
    let found = find seq q.packets in
    let taken = find new_seq q.packets in
    record q {
      end_seq = new_seq;
      packets = elim found [
        | none ↦ q.packets
        | some d ↦ elim taken [
          | some e ↦ q.packets
          | none ↦ emplace new_seq (move d).0 (assign seq (move d).1 q.packets)
        ]
      ];
    }

-- The `while` of `push_buffer`, on fuel; the list is the memory at `data`.
unfoldable pub push_from :
    (ℕ → Bool) → ℕ → PacketSendQueue → Bytes → ℕ → ℕ → Outcome PacketSendQueue
unfolding push_packet
push_from malloc zero q mem size offset = hangs
push_from malloc (suc fuel) q mem size offset = elim (ltb offset size) [
  | false ↦ done q
  | true ↦
      (let left = sub32 size offset in
        let packet_size = if ltb q.mtu left then q.mtu else left in
        push_packet malloc q packet_size (drop offset mem) >>= λ q'.
        push_from malloc fuel q' mem size (u32 (offset + packet_size)))
]

-- A round takes a byte at least, or else the loop never ends.
unfoldable pub push_buffer : (ℕ → Bool) → PacketSendQueue → Bytes → ℕ → Outcome PacketSendQueue
unfolding push_from
push_buffer malloc q mem size = push_from malloc (suc size) q mem size 0
