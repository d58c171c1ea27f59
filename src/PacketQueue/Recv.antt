-- ===== src/PacketQueue/Recv.antt =====
-- packet_queue.h, `PacketRecvQueue`: received packets by sequence number.
pub mod Resolve
pub mod Window
pub mod Missing
pub mod Copy
use udp_stuff.Base.{
  ℕ, zero, suc, ◌+◌, ◌-◌, ◌%◌, ◌^◌, Bool, true, false, Option, none, some, List, [], ◌∷◌, ◌++◌,
  length, take, drop, Bytes, ◌==◌, ltb, if◌then◌else◌, Outcome, done, throws, fault, hangs,
  runtime_error, ◌>>=◌, u16, u32, find, emplace, erase,
}
use udp_stuff.PacketQueue.Descr.{PacketDescr, is_data, read_bytes, make}
use udp_stuff.PacketQueue.Loop.{Flow, next, leave, for_seq, all_seqs}

pub record PacketRecvQueue : Type 0 where
  pub start_seq : ℕ
  pub end_seq : ℕ
  pub packets : List (ℕ × PacketDescr)
  pub seq_mapping : List (ℕ × ℕ)

abbrev pub new_recv_queue : PacketRecvQueue
new_recv_queue = record { start_seq = 1; end_seq = 0; packets = []; seq_mapping = [] }

unfoldable pub size_of_packets : List (ℕ × PacketDescr) → ℕ
size_of_packets [] = 0
size_of_packets ((k, d) ∷ ps) = u32 (d.size + size_of_packets ps)

unfoldable pub size_of_data_packets : List (ℕ × PacketDescr) → ℕ
size_of_data_packets [] = 0
size_of_data_packets ((k, d) ∷ ps) =
    if is_data d then u32 (d.size + size_of_data_packets ps) else size_of_data_packets ps

unfoldable pub packets_count : PacketRecvQueue → ℕ
packets_count q = length q.packets

unfoldable pub packets_size : PacketRecvQueue → ℕ
unfolding size_of_packets
packets_size q = size_of_packets q.packets

unfoldable pub data_packets_size : PacketRecvQueue → ℕ
unfolding size_of_data_packets
data_packets_size q = size_of_data_packets q.packets

-- The `while` of `resolve_seq`; a chain through more than 2 ^ 16 numbers is a cycle.
unfoldable pub resolve : ℕ → List (ℕ × ℕ) → ℕ → Outcome ℕ
resolve zero m seq = hangs
resolve (suc fuel) m seq = elim (find seq m) [ none ↦ done seq | some t ↦ resolve fuel m t ]

unfoldable pub resolve_seq : PacketRecvQueue → ℕ → Outcome ℕ
unfolding resolve
resolve_seq q seq = resolve all_seqs q.seq_mapping seq

-- `find`, and then `erase` by the iterator found.
abbrev pub erase_found {ℓ} : {V : Type ℓ} → ℕ → List (ℕ × V) → List (ℕ × V)
erase_found k m = elim (find k m) [ none ↦ m | some v ↦ erase k m ]

abbrev pub clear_one : ℕ → PacketRecvQueue → PacketRecvQueue
clear_one i q = record q {
  packets = erase_found i q.packets;
  seq_mapping = erase_found i q.seq_mapping;
}

-- What a loop that never leaves comes to.
abbrev pub ended : {S : Type 0} → Flow S S → S
ended (next s) = s
ended (leave s) = s

unfoldable pub clear_range : PacketRecvQueue → ℕ → ℕ → Outcome PacketRecvQueue
unfolding for_seq
clear_range q start end =
    for_seq (λ i t. done (next (clear_one i t))) all_seqs start end q >>= λ r. done (ended r)

unfoldable pub move_seq : PacketRecvQueue → ℕ → Outcome PacketRecvQueue
unfolding clear_range
move_seq q new_seq = do
  q' ← clear_range q q.start_seq new_seq
  done (record q' { start_seq = new_seq })

-- `return -1`, as a `uint32_t`
abbrev pub no_size : ℕ
no_size = 2 ^ 32 - 1

unfoldable pub size_round : PacketRecvQueue → ℕ → ℕ → Outcome (Flow ℕ ℕ)
size_round q i size = do
  seq ← resolve_seq q i
  elim (find seq q.packets) [
    | some d ↦ done (next (if is_data d then u32 (size + d.size) else size))
    | none ↦ done (leave no_size)
  ]

unfoldable pub compute_range_size : PacketRecvQueue → ℕ → ℕ → Outcome ℕ
unfolding for_seq size_round resolve_seq
compute_range_size q start end = for_seq (size_round q) all_seqs start end 0 >>= λ r. done (ended r)

unfoldable pub missing_round : PacketRecvQueue → ℕ → List ℕ → Outcome (Flow (List ℕ) (List ℕ))
missing_round q i missing = do
  seq ← resolve_seq q i
  elim (find seq q.packets) [
    | some d ↦ done (next missing)
    | none ↦ done (next (missing ++ i ∷ []))
  ]

-- The list is `missing`, which grows in place.
unfoldable pub find_missing_packets : PacketRecvQueue → ℕ → ℕ → List ℕ → Outcome (List ℕ)
unfolding for_seq missing_round resolve_seq
find_missing_packets q start end missing =
    for_seq (missing_round q) all_seqs start end missing >>= λ r. done (ended r)

unfoldable pub push_packet : (ℕ → Bool) → PacketRecvQueue → ℕ → Bytes → ℕ → Outcome PacketRecvQueue
unfolding make
push_packet malloc q seq src size = do
  d ← make malloc size src
  done (record q { packets = emplace seq d q.packets })

-- `memcpy(data + offset, block, size)`; beyond the end of either block it is undefined.
abbrev pub write_bytes : Bytes → ℕ → Bytes → Outcome Bytes
write_bytes mem offset b =
    if ltb (length mem) (offset + length b)
    then fault
    else done (take offset mem ++ (b ++ drop (offset + length b) mem))

abbrev pub block_of : PacketDescr → Bytes
block_of d = elim d.block [ none ↦ [] | some b ↦ b ]

-- The state is the memory at `data`, and `offset`.
unfoldable pub copy_round : PacketRecvQueue → ℕ → Bytes × ℕ → Outcome (Flow (Bytes × ℕ) (Bytes × ℕ))
copy_round q i (mem, offset) = do
  seq ← resolve_seq q i
  elim (find seq q.packets) [
    | some d ↦
        (if is_data d
          then (do
            b ← read_bytes d.size (block_of d)
            mem' ← write_bytes mem offset b
            done (next (mem', u32 (offset + d.size))))
          else done (next (mem, offset)))
    | none ↦ throws runtime_error
  ]

unfoldable pub copy_data : PacketRecvQueue → Bytes → ℕ → ℕ → Outcome Bytes
unfolding for_seq copy_round resolve_seq
copy_data q mem start end =
    for_seq (copy_round q) all_seqs start end (mem, 0) >>= λ r. done ((ended r).0)
