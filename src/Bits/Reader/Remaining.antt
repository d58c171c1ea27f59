-- ===== src/Bits/Reader/Remaining.antt =====
-- The bits that a reader has left, and the step to the next word.
use native.Mathlib.Nat.{mul-le-mul_right}
use udp_stuff.Base.{
  ℕ, ◌+◌, ◌-◌, ◌*◌, ◌<◌, ◌≤◌, ◌≡◌, refl, arith, length, done, throws, leb, false, stream_finished,
  dec_lt, if◌then◌else◌,
}
use udp_stuff.Bits.Writer.At.{get-inside}
use udp_stuff.Bits.Reader.{Reader, read_item}

module _ (w : ℕ) where
  unfoldable pub remaining : Reader → ℕ
  remaining s = s.cur_item_bits + (s.bit_size - s.items_read * w)

  -- The words of the buffer hold the bits that are promised.
  pub record Held (s : Reader) : Type 0 where
    pub words : s.bit_size ≤ length s.buf * w
    pub room : s.cur_item_bits ≤ w

  abbrev next_bits : Reader → ℕ
  next_bits s = if leb (s.items_read * w + w) s.bit_size then w else s.bit_size - s.items_read * w

  next_bits-le : (s : Reader) → next_bits s ≤ w
  next_bits-le s = ground arith

  next_bits-pos : (s : Reader) → 0 < w → s.items_read * w < s.bit_size → 0 < next_bits s
  next_bits-pos s pos h = ground arith

  next_bits_lem :
      (s : Reader)
      → s.items_read * w < s.bit_size
      → next_bits s + (s.bit_size - (s.items_read + 1) * w) ≡ s.bit_size - s.items_read * w
  next_bits_lem s h = ground arith

  next_inside : (s : Reader) → Held s → s.items_read * w < s.bit_size → s.items_read < length s.buf
  next_inside s f h = elim (dec_lt s.items_read (length s.buf)) [
    | yes inside ↦ inside
    | no past ↦ absurd (
        omega (
          arith,
          f.words,
          mul-le-mul_right {m = length s.buf} {n = s.items_read} w (omega (arith, past)),
        ))
  ]

  pub bits-le_remaining : (s : Reader) → s.cur_item_bits ≤ remaining s
  unfolding remaining
  bits-le_remaining s = omega arith

  pub read_item-none :
      (s : Reader) → remaining s ≤ s.cur_item_bits → read_item w s ≡ throws stream_finished
  unfolding read_item remaining
  read_item-none s h = ground arith

  -- The next word is there, and the current one is done with.
  pub read_item-some :
      (s : Reader)
      → Held s
      → 0 < w
      → s.cur_item_bits < remaining s
      → (s' : Reader) × (read_item w s ≡ done s')
        × Held s'
        × (0 < s'.cur_item_bits)
        × (remaining s' + s.cur_item_bits ≡ remaining s)
  unfolding read_item remaining
  read_item-some s f pos h =
      let more : s.items_read * w < s.bit_size = omega arith in
      let no : leb s.bit_size (s.items_read * w) ≡ false = ground arith in
      let x = get-inside s.buf s.items_read (next_inside s f more) in
      (
        record {
          buf = s.buf;
          items_read = s.items_read + 1;
          bit_size = s.bit_size;
          cur_item = x.0;
          cur_item_bits = next_bits s;
        },
        rw no (rw x.1 refl),
        record { words = f.words; room = next_bits-le s },
        next_bits-pos s pos more,
        omega (arith, next_bits_lem s more),
      )

  -- What a step of `read_bits` comes to: the bits are taken, or the stream has ended.
  pub record Taken (s s' : Reader) (n : ℕ) : Type 0 where
    pub held : Held s'
    pub left : remaining s' + n ≡ remaining s
