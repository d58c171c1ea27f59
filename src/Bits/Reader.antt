-- ===== src/Bits/Reader.antt =====
-- proto/bit_reader.h, `BitBufferReader<Tn>`, for words of `w` bits and results of `wo` bits.
pub mod Remaining
pub mod Taking
pub mod Written
use Prim.Native.Nat.{bit_and, bit_or}
use udp_stuff.Base.{
  ℕ, zero, suc, ◌+◌, ◌-◌, ◌*◌, ◌/◌, ◌%◌, ◌^◌, ltb, leb, if◌then◌else◌, true, false, List, get_elem?,
  Option, some, none, Outcome, done, throws, fault, hangs, ◌>>=◌, Exception, stream_finished,
}
use udp_stuff.Bits.Shift.{shift_left, shift_right}
use udp_stuff.Bits.Writer.At.{get}

pub record Reader : Type 0 where
  pub buf : List ℕ
  pub items_read : ℕ
  pub bit_size : ℕ
  pub cur_item : ℕ
  pub cur_item_bits : ℕ

-- The reader of no bits
abbrev pub at_end : List ℕ → ℕ → Reader
at_end buf bit_size = record {
  buf = buf;
  items_read = 0;
  bit_size = bit_size;
  cur_item = 0;
  cur_item_bits = 0;
}

module _ (w : ℕ) where
  -- The two constructors, of which the second starts behind `bit_shift` bits.
  unfoldable pub start : List ℕ → ℕ → Outcome Reader
  start buf bit_size =
      if ltb 0 bit_size
      then (get buf 0 >>= λ x. done (record {
        buf = buf;
        items_read = 1;
        bit_size = bit_size;
        cur_item = x;
        cur_item_bits = if ltb w bit_size then w else bit_size;
      }))
      else done (at_end buf bit_size)

  unfoldable pub start_shifted : List ℕ → ℕ → ℕ → Outcome Reader
  start_shifted buf size bit_shift =
      if ltb 0 (size + bit_shift)
      then (get buf 0 >>= λ x. shift_right w x bit_shift >>= λ item. done (record {
        buf = buf;
        items_read = 1;
        bit_size = size + bit_shift;
        cur_item = item;
        cur_item_bits = (if ltb w (size + bit_shift) then w else size + bit_shift) - bit_shift;
      }))
      else done (at_end buf (size + bit_shift))

  unfoldable pub read_item : Reader → Outcome Reader
  read_item s =
      if leb s.bit_size (s.items_read * w)
      then throws stream_finished
      else (get s.buf s.items_read >>= λ x. done (record {
        buf = s.buf;
        items_read = s.items_read + 1;
        bit_size = s.bit_size;
        cur_item = x;
        cur_item_bits =
            if leb (s.items_read * w + w) s.bit_size then w else s.bit_size - s.items_read * w;
      }))

  -- `cur_item & ((1 << n + 1) - 1)`
  unfoldable pub low_part : Reader → ℕ → Outcome ℕ
  low_part s n = shift_left w 1 (n + 1) >>= λ m. done (bit_and s.cur_item (m - 1))

  -- `cur_item >>= n; cur_item_bits -= n;`
  unfoldable pub skip : Reader → ℕ → Outcome Reader
  skip s n = shift_right w s.cur_item n >>= λ x. done (record {
    buf = s.buf;
    items_read = s.items_read;
    bit_size = s.bit_size;
    cur_item = x;
    cur_item_bits = s.cur_item_bits - n;
  })

  module _ (wo : ℕ) where
    -- The `while` of `read_bits`, on fuel: the words that are read to their end.
    unfoldable pub read_words : ℕ → Reader → ℕ → ℕ → Outcome (Reader × ℕ × ℕ)
    read_words zero s r n = hangs
    read_words (suc fuel) s r n =
        let more = shift_left wo r s.cur_item_bits >>= λ x. read_item s >>= λ s'.
        read_words fuel s' (bit_or x s.cur_item % 2 ^ wo) (n - s.cur_item_bits) in
        if ltb s.cur_item_bits n then more else done (s, r, n)

    -- What the current word has not got comes from the words that follow.
    unfoldable pub read_across : Reader → ℕ → Outcome (ℕ × Reader)
    read_across s n = do
      s' ← read_item s
      (t, r, left) ← read_words (suc n) s' (s.cur_item % 2 ^ wo) (n - s.cur_item_bits)
      high ← shift_left wo r left
      low ← low_part t left
      t' ← skip t left
      done (bit_or high low % 2 ^ wo, t')

    unfoldable pub read_within : Reader → ℕ → Outcome (ℕ × Reader)
    read_within s n = do low ← low_part s n; t ← skip s n; done (low % 2 ^ wo, t)

    unfoldable pub read_bits : Reader → ℕ → Outcome (ℕ × Reader)
    unfolding read_item read_words read_across read_within low_part skip
    read_bits s n = if leb n s.cur_item_bits then read_within s n else read_across s n

  unfoldable pub get_bit_pos : Reader → ℕ
  get_bit_pos s = s.items_read * w + s.cur_item_bits
