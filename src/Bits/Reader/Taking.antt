-- ===== src/Bits/Reader/Taking.antt =====
-- `read_bits` takes as many bits as it is asked for, or says that the stream has ended.
use Prim.Native.Nat.{bit_and, bit_or}
use udp_stuff.Base.{
  ℕ, zero, suc, ◌+◌, ◌-◌, ◌*◌, ◌/◌, ◌%◌, ◌^◌, ◌<◌, ◌≤◌, ◌≡◌, refl, arith, done, throws, ltb, leb,
  true, false, Bool-cases, inl, inr, ◌⊎◌, stream_finished, dec_lt, ◌∙◌,
}
use udp_stuff.Bits.Shift.{shift_right-below, shift_left-below}
use udp_stuff.Bits.Reader.{
  Reader, read_item, low_part, skip, read_words, read_across, read_within, read_bits,
}
use udp_stuff.Bits.Reader.Remaining.{
  remaining, Held, Taken, read_item-none, read_item-some, bits-le_remaining,
}

module _ (w : ℕ) where
  module _ (wo : ℕ) where
    read_within_lem :
        (s : Reader) (n : ℕ)
        → Held w s
        → n + 1 < w
        → n ≤ s.cur_item_bits
        → (r : ℕ × Reader) × (read_within w wo s n ≡ done r) × Taken w s r.1 n
    unfolding read_within low_part skip remaining
    read_within_lem s n f small inside = (
      (
        bit_and s.cur_item (1 * 2 ^ (n + 1) % 2 ^ w - 1) % 2 ^ wo,
        record {
          buf = s.buf;
          items_read = s.items_read;
          bit_size = s.bit_size;
          cur_item = s.cur_item / 2 ^ n;
          cur_item_bits = s.cur_item_bits - n;
        },
      ),
      rw (shift_left-below w 1 (n + 1) small)
          (rw (shift_right-below w s.cur_item n (omega arith)) refl),
      record {
        held = record { words = f.words; room = omega (arith, f.room) };
        left = omega arith;
      },
    )

    -- What the loop of `read_bits` ends with.
    record Reached (s : Reader) (n : ℕ) (r : Reader × ℕ × ℕ) : Type 0 where
      pub held : Held w r.0
      pub inside : r.2 ≤ r.0.cur_item_bits
      pub few : r.2 ≤ n
      pub left : remaining w r.0 + n ≡ remaining w s + r.2

    read_words_more :
        (fuel : ℕ) (s : Reader) (r n : ℕ) (s' : Reader)
        → s.cur_item_bits < n
        → n ≤ wo
        → read_item w s ≡ done s'
        → read_words w wo (suc fuel) s r n
          ≡ read_words w wo fuel s'
              (bit_or (r * 2 ^ s.cur_item_bits % 2 ^ wo) s.cur_item % 2 ^ wo)
              (n - s.cur_item_bits)
    unfolding read_words
    read_words_more fuel s r n s' more le e =
        let yes' : ltb s.cur_item_bits n ≡ true = ground arith in
        rw (shift_left-below wo r s.cur_item_bits (omega arith)) (rw e (rw yes' refl))

    read_words_stop :
        (fuel : ℕ) (s : Reader) (r n : ℕ)
        → n ≤ s.cur_item_bits
        → read_words w wo (suc fuel) s r n ≡ done (s, r, n)
    unfolding read_words
    read_words_stop fuel s r n le =
        let no' : ltb s.cur_item_bits n ≡ false = ground arith in rw no' refl

    read_words-done :
        (fuel : ℕ) (s : Reader) (r n : ℕ)
        → 0 < w
        → Held w s
        → 0 < s.cur_item_bits
        → n < fuel
        → n ≤ wo
        → n ≤ remaining w s
        → (t : Reader × ℕ × ℕ) × (read_words w wo fuel s r n ≡ done t) × Reached s n t
    read_words-done zero s r n pos f bits enough le has = absurd (omega arith)
    read_words-done (suc fuel) s r n pos f bits enough le has = elim (dec_lt s.cur_item_bits n) [
      | yes more ↦
          let next = read_item-some w s f pos (omega arith) in
          let r' : ℕ = bit_or (r * 2 ^ s.cur_item_bits % 2 ^ wo) s.cur_item % 2 ^ wo in
          let rest =
            read_words-done fuel next.0 r' (n - s.cur_item_bits) pos next.2 next.3 (omega arith)
              (omega arith) (omega (arith, next.4)) in
          (
            rest.0,
            read_words_more fuel s r n next.0 more le next.1 ∙ rest.1,
            record {
              held = rest.2.held;
              inside = rest.2.inside;
              few = omega (arith, rest.2.few);
              left = omega (arith, rest.2.left, next.4);
            },
          )
      | no stop ↦ (
        (s, r, n),
        read_words_stop fuel s r n (omega arith),
        record { held = f; inside = omega arith; few = omega arith; left = omega arith },
      )
    ]

    read_words-throws :
        (fuel : ℕ) (s : Reader) (r n : ℕ)
        → 0 < w
        → Held w s
        → 0 < s.cur_item_bits
        → n < fuel
        → n ≤ wo
        → remaining w s < n
        → read_words w wo fuel s r n ≡ throws stream_finished
    unfolding read_words
    read_words-throws zero s r n pos f bits enough le has = absurd (omega arith)
    read_words-throws (suc fuel) s r n pos f bits enough le has =
        elim (dec_lt s.cur_item_bits (remaining w s)) [
          | yes more ↦
              let next = read_item-some w s f pos more in
              let r' : ℕ = bit_or (r * 2 ^ s.cur_item_bits % 2 ^ wo) s.cur_item % 2 ^ wo in
              read_words_more fuel s r n next.0 (omega arith) le next.1
              ∙ read_words-throws fuel next.0 r' (n - s.cur_item_bits) pos next.2 next.3
                  (omega arith) (omega arith) (omega (arith, next.4))
          | no last ↦
              let yes' : ltb s.cur_item_bits n ≡ true = ground (arith, bits-le_remaining w s) in
              rw yes' (
                rw (shift_left-below wo r s.cur_item_bits (omega (arith, bits-le_remaining w s)))
                  (rw (read_item-none w s (omega arith)) refl))
        ]

    taken :
        (s s' t : Reader) (n left : ℕ)
        → left ≤ t.cur_item_bits
        → remaining w t + (n - s.cur_item_bits) ≡ remaining w s' + left
        → remaining w s' + s.cur_item_bits ≡ remaining w s
        → s.cur_item_bits ≤ n
        → t.cur_item_bits - left + (t.bit_size - t.items_read * w) + n ≡ remaining w s
    unfolding remaining
    taken s s' t n left inside a b le = omega arith

    read_across_lem :
        (s : Reader) (n : ℕ)
        → 0 < w
        → Held w s
        → n + 1 < w
        → n < wo
        → s.cur_item_bits < n
        → n ≤ remaining w s
        → (r : ℕ × Reader) × (read_across w wo s n ≡ done r) × Taken w s r.1 n
    unfolding read_across low_part skip remaining
    read_across_lem s n pos f small narrow more has =
        let next = read_item-some w s f pos (omega arith) in
        let r' : ℕ = s.cur_item % 2 ^ wo in
        let loop =
          read_words-done (suc n) next.0 r' (n - s.cur_item_bits) pos next.2 next.3 (omega arith)
            (omega arith) (omega (arith, next.4)) in
        let t : Reader = loop.0.0 in
        let left : ℕ = loop.0.2 in
        (
          (
            bit_or (loop.0.1 * 2 ^ left % 2 ^ wo)
                  (bit_and t.cur_item (1 * 2 ^ (left + 1) % 2 ^ w - 1))
                % 2 ^ wo,
            record {
              buf = t.buf;
              items_read = t.items_read;
              bit_size = t.bit_size;
              cur_item = t.cur_item / 2 ^ left;
              cur_item_bits = t.cur_item_bits - left;
            },
          ),
          rw next.1 (
              rw loop.1 (
                rw (shift_left-below wo loop.0.1 left (omega (arith, loop.2.few))) (
                  rw (shift_left-below w 1 (left + 1) (omega (arith, loop.2.few)))
                    (rw (shift_right-below w t.cur_item left (omega (arith, loop.2.few))) refl)))),
          record {
            held = record { words = loop.2.held.words; room = omega (arith, loop.2.held.room) };
            left = taken s next.0 t n left loop.2.inside loop.2.left next.4 (omega arith);
          },
        )

    read_across-throws :
        (s : Reader) (n : ℕ)
        → 0 < w
        → Held w s
        → n < wo
        → s.cur_item_bits < n
        → remaining w s < n
        → read_across w wo s n ≡ throws stream_finished
    unfolding read_across
    read_across-throws s n pos f narrow more has = elim (dec_lt s.cur_item_bits (remaining w s)) [
      | yes there ↦
          let next = read_item-some w s f pos there in
          rw next.1 (
            rw
              (read_words-throws (suc n) next.0 (s.cur_item % 2 ^ wo) (n - s.cur_item_bits) pos
                next.2 next.3 (omega arith) (omega arith) (omega (arith, next.4)))
              refl)
      | no last ↦ rw (read_item-none w s (omega arith)) refl
    ]

    -- For `n` at least two below the width `w` of the words and below the width `wo` of the value, `read_bits`
    -- takes the `n` bits that are asked for, or the stream has fewer and it says so. (For greater `n` its mask
    -- is a shift by the width.)
    pub read_bits_lem :
        (s : Reader) (n : ℕ)
        → 0 < w
        → Held w s
        → n + 1 < w
        → n < wo
        → ((n ≤ remaining w s)
            × ((r : ℕ × Reader) × (read_bits w wo s n ≡ done r) × Taken w s r.1 n))
          ⊎ ((remaining w s < n) × (read_bits w wo s n ≡ throws stream_finished))
    unfolding read_bits
    read_bits_lem s n pos f small narrow = elim (Bool-cases (leb n s.cur_item_bits)) [
      | inl inside ↦ rw inside (
          inl (
            ground (arith, inside, bits-le_remaining w s),
            read_within_lem s n f small (ground (arith, inside)),
          ))
      | inr across ↦ rw across (elim (dec_lt (remaining w s) n) [
        | yes few ↦ inr (few, read_across-throws s n pos f narrow (ground (arith, across)) few)
        | no more ↦ inl (
          omega arith,
          read_across_lem s n pos f small narrow (ground (arith, across)) (omega arith),
        )
      ])
    ]
