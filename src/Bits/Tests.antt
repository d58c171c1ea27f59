-- ===== src/Bits/Tests.antt =====
-- Runs of the bit writer and the bit reader, and the theorems at concrete inputs.
use udp_stuff.Base.{
  ◌⊎◌, ℕ, ◌+◌, ◌*◌, ◌^◌, ◌<◌, ◌≤◌, ◌≡◌, refl, arith, [], ◌∷◌, done, throws, fault, ◌>>=◌, inr,
  stream_finished,
}
use udp_stuff.Bits.Shift.{shift_left, shift_right}
use udp_stuff.Bits.Writer.{Writer, join, put_words, write_uint}
use udp_stuff.Bits.Writer.Value.{full_nil, full_word, Started, Fits}
use udp_stuff.Bits.Writer.Refine.{Written, write_uint_lem}
use udp_stuff.Bits.Writer.Unique.{write_uint-write_uint}
use udp_stuff.Bits.Writer.At.{write_uint_at, write_within, write_over, write_last, set_words}
use udp_stuff.Bits.Reader.{
  Reader, start, read_bits, read_item, read_words, read_within, read_across, low_part, skip,
}
use udp_stuff.Bits.Reader.Remaining.{remaining, Taken}
use udp_stuff.Bits.Reader.Taking.{read_bits_lem}

-- Words of 32 bits, of which the last one holds 5 bits.
abbrev two_words : Writer
two_words = record { out = 0xdeadbeef ∷ []; out_v = 21; bits_out = 5 }

-- A value of 64 bits fills the open word and the next one.
write_uint_long :
    write_uint 32 64 two_words 0x123456789abcdef0 61
    ≡ done (record { out = 0xdeadbeef ∷ 0x579bde15 ∷ 0x468acf13 ∷ []; out_v = 2; bits_out = 2 })
unfolding write_uint join put_words shift_left shift_right
write_uint_long = refl

-- The open word is full, and the value has its width: the shift is undefined.
write_uint_full : write_uint 32 32 (record { out = []; out_v = 7; bits_out = 32 }) 1 1 ≡ fault
unfolding write_uint join put_words shift_left shift_right
write_uint_full = refl

-- A field that ends with the last word reads the word behind it.
write_uint_at_end :
    write_uint_at 32 64 (record { out = 0 ∷ []; out_v = 0; bits_out = 0 }) 24 255 8 ≡ fault
unfolding write_uint_at write_within write_over write_last set_words shift_left shift_right
write_uint_at_end = refl

-- A word with a field of 8 bits at its end: reading the whole of it is undefined.
read_bits_word : (start 32 (1 ∷ 2 ∷ []) 64 >>= λ r. read_bits 32 64 r 32 >>= λ p. done p.0) ≡ fault
unfolding start read_bits read_item read_words read_within read_across low_part skip shift_left
    shift_right
read_bits_word = refl

-- Two words that follow each other: the later word's bits are the lower ones.
read_bits_order :
    (start 32 (0x1000000f ∷ 3 ∷ []) 64 >>= λ r. read_bits 32 64 r 40 >>= λ p. done p.0)
    ≡ done 0x1000000f03
unfolding start read_bits read_item read_words read_within read_across low_part skip shift_left
    shift_right
read_bits_order = refl

two_words-Fits : Fits 32 two_words
two_words-Fits = record {
  full = full_word (omega arith) full_nil;
  open_word = omega arith;
  room = omega arith;
}

write_uint_lem_example :
    (s : Writer) × (write_uint 32 64 two_words 0x123456789abcdef0 61 ≡ done s)
    × Written 32 two_words 0x123456789abcdef0 61 s
write_uint_lem_example =
    write_uint_lem 32 64 two_words 0x123456789abcdef0 61 (omega arith) (omega arith) (omega arith)
      (omega arith) (omega arith) two_words-Fits

write_uint-write_uint_example :
    (write_uint 32 64 two_words 1000 10 >>= λ s. write_uint 32 64 s 0x123456789a 37)
    ≡ write_uint 32 64 two_words (1000 + 0x123456789a * 2 ^ 10) 47
unfolding Started
write_uint-write_uint_example =
    write_uint-write_uint 32 64 two_words 1000 10 0x123456789a 37 (omega arith) (omega arith)
      (omega arith) (omega arith) (omega arith) two_words-Fits (inr (omega arith))

abbrev three_words : Writer
three_words = record { out = 0xffffffff ∷ 0xffffffff ∷ 0xffffffff ∷ []; out_v = 0; bits_out = 0 }

-- Of 40 bits, 28 are left.
abbrev part_read : Reader
part_read = record {
  buf = 7 ∷ 9 ∷ [];
  items_read = 1;
  bit_size = 40;
  cur_item = 0;
  cur_item_bits = 20;
}

read_bits_lem_example :
    ((24 ≤ remaining 32 part_read)
      × ((r : ℕ × Reader) × (read_bits 32 32 part_read 24 ≡ done r) × Taken 32 part_read r.1 24))
    ⊎ ((remaining 32 part_read < 24) × (read_bits 32 32 part_read 24 ≡ throws stream_finished))
read_bits_lem_example =
    read_bits_lem 32 32 part_read 24 (omega arith)
      (record { words = omega arith; room = omega arith }) (omega arith) (omega arith)
