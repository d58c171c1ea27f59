-- ===== src/Buffers/Packets.antt =====
-- packet_buffer.h: PacketBuffer, a ring of packets in a block of its own.
pub mod Copying
pub mod Resize
use udp_stuff.Base.{
  ℕ, zero, suc, ◌+◌, ◌-◌, ◌*◌, ◌%◌, ◌^◌, ◌==◌, ltb, leb, if◌then◌else◌, Bool, true, false, List, [],
  ◌∷◌, ◌++◌, Option, none, some, get_elem?, set, take, drop, length, replicate, sub32, u32, Outcome,
  done, throws, fault, hangs, ◌>>=◌,
}

pub record PacketBuffer (P : Type 0) : Type 0 where
  pub packets : Option (List P)  -- nothing for a null pointer
  pub size : ℕ
  pub start : ℕ
  pub end : ℕ
  pub seq_start : ℕ

module _ {P : Type 0} where
  -- `length()`
  unfoldable pub buffer_length : PacketBuffer P → ℕ
  buffer_length b =
      if leb b.start b.end then sub32 b.end b.start else sub32 (u32 (b.size + b.end)) b.start

  unfoldable pub next_pos : PacketBuffer P → ℕ → ℕ
  next_pos b pos = if ltb (u32 (pos + 1)) b.size then u32 (pos + 1) else 0

  unfoldable pub prev_pos : PacketBuffer P → ℕ → ℕ
  prev_pos b pos = if pos == 0 then sub32 b.size 1 else pos - 1

  unfoldable pub clear : PacketBuffer P → PacketBuffer P
  clear b = record { packets = none; size = 0; start = 0; end = 0; seq_start = 0 }

  abbrev at_packet : Option P → (P → Outcome (List P)) → Outcome (List P)
  at_packet none f = fault
  at_packet (some p) f = f p

  -- `to[to_pos + i] = std::move(from[from_pos + i])` for `n` values of `i`. What the move leaves behind is not
  -- read again: the old buffer is cleared.
  unfoldable pub move_packets : ℕ → List P → ℕ → List P → ℕ → Outcome (List P)
  move_packets zero from from_pos to to_pos = done to
  move_packets (suc n) from from_pos to to_pos =
      let rest = move_packets n from (u32 (from_pos + 1)) in
      at_packet (get_elem? from from_pos)
        λ p. if ltb to_pos (length to) then rest (set to to_pos p) (u32 (to_pos + 1)) else fault

  -- `new Tpacket[size]`, of packets as their constructor leaves them.
  unfoldable pub make : P → ℕ → PacketBuffer P
  make p size = record {
    packets = some (replicate size p);
    size = size;
    start = 0;
    end = 0;
    seq_start = 0;
  }

  abbrev old_packets : Option (List P) → Outcome (List P)
  old_packets none = fault
  old_packets (some ps) = done ps

  -- The loops of the constructor that takes the packets of another buffer, `n` of them.
  unfoldable pub move_old : PacketBuffer P → ℕ → List P → List P → Outcome (List P)
  unfolding move_packets
  move_old old n from to = if leb old.start old.end then move_packets n from old.start to 0 else (do
    let start_size = sub32 old.size old.start
    first ← move_packets start_size from old.start to 0
    move_packets old.start from 0 first start_size)

  abbrev pub moved : PacketBuffer P → ℕ → ℕ → List P → PacketBuffer P
  moved old new_size n ps = record {
    packets = some ps;
    size = new_size;
    start = 0;
    end = n;
    seq_start = old.seq_start;
  }

  unfoldable pub move_from : P → PacketBuffer P → ℕ → Outcome (PacketBuffer P)
  unfolding buffer_length move_old
  move_from p old new_size = do
    let n = buffer_length old
    from ← old_packets old.packets
    ps ← move_old old n from (replicate new_size p)
    done (moved old new_size n ps)

  -- The buffer after `resize`; the old one, which the assignment swaps away, is cleared.
  unfoldable pub resize : P → PacketBuffer P → ℕ → Outcome (PacketBuffer P)
  unfolding move_from
  resize p b new_size = move_from p b new_size
