-- ===== src/PacketQueue/Descr.antt =====
-- packet_queue.h, `PacketDescr`: a packet's size and its heap block.
pub mod Copying
use udp_stuff.Base.{
  ℕ, ◌%◌, ◌≤◌, ◌≡◌, refl, arith, Bool, true, false, Option, none, some, List, [], length, take,
  Bytes, ◌⊎◌, ◌==◌, ltb, if◌then◌else◌, Bool-cases, inl, inr, Outcome, done, throws, fault,
  bad_alloc, ◌>>=◌, u32,
}

-- `data` is a heap block, or `NULL`.
pub record PacketDescr : Type 0 where
  pub size : ℕ
  pub block : Option Bytes

abbrev pub empty : PacketDescr
empty = record { size = 0; block = none }

-- Packets of an even size carry data, the others control structures.
abbrev pub is_data : PacketDescr → Bool
is_data d = d.size % 2 == 0

-- `memcpy` reads `size` bytes; beyond the end of its source it is undefined.
abbrev pub read_bytes : ℕ → Bytes → Outcome Bytes
read_bytes n src = if ltb (length src) n then fault else done (take n src)

-- `malloc n` yields a block if the flag of the allocator says so at `n`.
module _ (malloc : ℕ → Bool) where
  unfoldable pub make : ℕ → Bytes → Outcome PacketDescr
  make size src =
      if size == 0
      then done empty
      else if malloc size
      then (read_bytes size src >>= λ b. done (record { size = size; block = some b }))
      else throws bad_alloc

  -- The copy constructor: the descriptor that it makes is a temporary, so the one under
  -- construction keeps its initial fields.
  unfoldable pub copy : PacketDescr → Outcome PacketDescr
  unfolding make
  copy other = elim other.block [
    | none ↦ (make other.size [] >>= λ temporary. done empty)
    | some b ↦ (make other.size b >>= λ temporary. done empty)
  ]

-- The move constructor: the new descriptor, and what is left of the old one.
unfoldable pub move : PacketDescr → PacketDescr × PacketDescr
move other = (other, record other { size = 0; block = none })

-- `clear` frees the block and keeps the size.
unfoldable pub clear : PacketDescr → PacketDescr
clear d = record d { block = none }

-- A descriptor owns as many bytes as its size says.
pub record IsFull (d : PacketDescr) : Type 0 where
  pub owns : (d.size ≡ 0) ⊎ ((b : Bytes) × (d.block ≡ some b) × (length b ≡ d.size))
