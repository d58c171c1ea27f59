-- ===== src/Bits/Writer/Unique.antt =====
-- A writer is determined by its bits: two ways to write the same bits end in the same state.
use native.Mathlib.Nat.{eq_of_mul-eq-mul_left, mul-add-mod_self_left, mod-eq_of_lt}
use udp_stuff.Base.{
  ℕ, ◌+◌, ◌*◌, ◌%◌, ◌^◌, ◌<◌, ◌≤◌, ◌≡◌, refl, ap, ap₂, arith, List, [], ◌∷◌, length, done, ◌>>=◌,
  ◌⊎◌, inr,
}
use udp_stuff.Bits.Shift.{two_pow_pos, two_pow_add}
use udp_stuff.Bits.Fields.{add_scaled-lt}
use udp_stuff.Bits.Writer.{Writer, get_bit_pos, write_uint}
use udp_stuff.Bits.Writer.Value.{
  words, value, Full, Fits, full_word, two_pow_words, Started, no_words,
}
use udp_stuff.Bits.Writer.Refine.{write_uint_lem}

module _ (w : ℕ) where
  low_word :
      (x y a b : ℕ) → x < 2 ^ w → y < 2 ^ w → x + 2 ^ w * a ≡ y + 2 ^ w * b → (x ≡ y) × (a ≡ b)
  low_word x y a b hx hy e =
      let same : x ≡ y = omega (
        arith,
        ap (λ (t : ℕ). t % 2 ^ w) {x = 2 ^ w * a + x} {y = 2 ^ w * b + y} (omega arith),
        mul-add-mod_self_left (2 ^ w) a x,
        mul-add-mod_self_left (2 ^ w) b y,
        mod-eq_of_lt hx,
        mod-eq_of_lt hy,
      ) in
      (same, eq_of_mul-eq-mul_left (2 ^ w) (two_pow_pos w) a b (omega arith))

  unique_from :
      (xs ys : List ℕ) (a b i j : ℕ)
      → Full w xs
      → Full w ys
      → i ≤ w
      → j ≤ w
      → (length xs ≡ 0) ⊎ (0 < i)
      → (length ys ≡ 0) ⊎ (0 < j)
      → length xs * w + i ≡ length ys * w + j
      → words w xs + a * 2 ^ (length xs * w) ≡ words w ys + b * 2 ^ (length ys * w)
      → (xs ≡ ys) × (a ≡ b) × (i ≡ j)
  unfolding words
  unique_from [] [] a b i j fx fy hi hj si sj p e =
      (refl, omega (arith, e, no_words w a, no_words w b), omega (arith, p))
  unique_from [] (y ∷ ys) a b i j fx fy hi hj si sj p e = absurd (ground (arith, sj, p))
  unique_from (x ∷ xs) [] a b i j fx fy hi hj si sj p e = absurd (ground (arith, si, p))
  unique_from (x ∷ xs) (y ∷ ys) a b i j (full_word hx fx) (full_word hy fy) hi hj si sj p e =
      let low =
        low_word x y (words w xs + a * 2 ^ (length xs * w)) (words w ys + b * 2 ^ (length ys * w))
          hx hy
          (omega (
            arith,
            e,
            ap (λ (t : ℕ). a * t) (two_pow_words w x xs),
            ap (λ (t : ℕ). b * t) (two_pow_words w y ys),
          )) in
      let rest =
        unique_from xs ys a b i j fx fy hi hj (inr (ground (arith, si))) (inr (ground (arith, sj)))
          (omega (arith, p)) low.1 in
      (ap₂ ◌∷◌ low.0 rest.0, rest.1, rest.2)

  pub unique :
      (s t : Writer)
      → Fits w s
      → Fits w t
      → Started w s
      → Started w t
      → get_bit_pos w s ≡ get_bit_pos w t
      → value w s ≡ value w t
      → s ≡ t
  unfolding get_bit_pos value Started
  unique s t fs ft ss st p e =
      let r =
        unique_from s.out t.out s.out_v t.out_v s.bits_out t.bits_out fs.full ft.full fs.room
          ft.room ss st p e in
      λ k. record { out = r.0 k; out_v = r.1 k; bits_out = r.2 k }

  -- For words narrower than the values, and two fields that fit a value together, two writes one after the
  -- other are one write of the joined value, in every state of the writer's form.
  pub write_uint-write_uint :
      (wi : ℕ) (s : Writer) (a m b n : ℕ)
      → 0 < w
      → w < wi
      → m + n ≤ wi
      → a < 2 ^ m
      → b < 2 ^ n
      → Fits w s
      → Started w s
      → (write_uint w wi s a m >>= λ t. write_uint w wi t b n)
        ≡ write_uint w wi s (a + b * 2 ^ m) (m + n)
  write_uint-write_uint wi s a m b n pos more le ha hb f st =
      let first =
        write_uint_lem w wi s a m pos (omega arith) (omega arith) (ground (arith, f.room)) ha f in
      let t = first.0 in
      let second =
        write_uint_lem w wi t b n pos (omega arith) (omega arith)
          (ground (arith, first.2.fits.room)) hb first.2.fits in
      let joined =
        write_uint_lem w wi s (a + b * 2 ^ m) (m + n) pos (omega arith) le (ground (arith, f.room))
          (add_scaled-lt a b m n ha hb) f in
      rw first.1 (
        rw second.1 (
          rw joined.1 (
            ap done (
              unique second.0 joined.0 second.2.fits joined.2.fits
                (second.2.started (first.2.started st)) (joined.2.started st)
                (omega (arith, first.2.end, second.2.end, joined.2.end))
                (omega (
                  arith,
                  first.2.bits,
                  second.2.bits,
                  joined.2.bits,
                  ap (λ (p : ℕ). b * 2 ^ p) first.2.end,
                  ap (λ (p : ℕ). b * p) (two_pow_add (get_bit_pos w s) m),
                ))))))
