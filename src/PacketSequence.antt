-- ===== src/PacketSequence.antt =====
-- packet_sequence.h, `PacketSequence`: a block of data cut into packets of `mtu` bytes.
pub mod Tiling
mod Tests
use udp_stuff.Base.{
  ℕ, ◌+◌, ◌-◌, ◌*◌, ◌/◌, ◌%◌, ◌^◌, Bool, true, false, Option, none, some, Bytes, ltb, leb, ◌==◌,
  if◌then◌else◌, Outcome, done, throws, fault, bad_alloc, out_of_range, u64, min,
}

-- `block` is the heap block at `data`, or `NULL`.
pub record PacketSequence : Type 0 where
  pub seq_start : ℕ
  pub data_size : ℕ
  pub mtu : ℕ
  pub block : Option Bytes

-- The place of a packet: its offset from `data`, and its size.
pub record PacketLoc : Type 0 where
  pub offset : ℕ
  pub size : ℕ

-- What `malloc` returned is an argument: `none` for `NULL`, or else a block with any content.
unfoldable pub make : Option Bytes → ℕ → ℕ → ℕ → Outcome PacketSequence
make allocated seq_start data_size mtu = elim allocated [
  | none ↦ throws bad_alloc
  | some b ↦
      done (record { seq_start = seq_start; data_size = data_size; mtu = mtu; block = some b })
]

-- `Tseq` is the unsigned type of `bits` bits; `size_t` has 64.
module _ (bits : ℕ) where
  unfoldable pub packet_start_pos : PacketSequence → ℕ → ℕ
  packet_start_pos p packet_seq =
      let packet_num = (packet_seq + 2 ^ bits - p.seq_start) % 2 ^ bits in u64 (packet_num * p.mtu)

  unfoldable pub packet_loc : PacketSequence → ℕ → Outcome PacketLoc
  unfolding packet_start_pos
  packet_loc p packet_seq =
      let start_pos = packet_start_pos p packet_seq in
      if leb p.data_size start_pos
      then throws out_of_range
      else done (record { offset = start_pos; size = min (p.data_size - start_pos) p.mtu })

-- A division by 0 is undefined.
unfoldable pub packets_count : PacketSequence → Outcome ℕ
packets_count p =
    if p.mtu == 0
    then fault
    else if p.data_size % p.mtu == 0
    then done (p.data_size / p.mtu)
    else done (p.data_size / p.mtu + 1)

unfoldable pub clear : PacketSequence → PacketSequence
clear p = record { seq_start = 0; data_size = 0; mtu = 0; block = none }
