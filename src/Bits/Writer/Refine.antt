-- ===== src/Bits/Writer/Refine.antt =====
-- `write_uint` as what it is for: it adds the value's bits behind the ones that are there.
use native.Mathlib.Nat.{mod-eq_of_lt, mod-mod, pow-le-pow_right}
use udp_stuff.Base.{
  ℕ, zero, suc, ◌+◌, ◌-◌, ◌*◌, ◌/◌, ◌%◌, ◌^◌, ◌<◌, ◌≤◌, ◌≡◌, refl, ap, arith, List, [], ◌∷◌, ◌++◌,
  length, done, ltb, leb, Bool-cases, true, inl, inr,
}
use udp_stuff.Bits.Shift.{shift_right-below, shift_left-below, two_pow_add, two_pow_pos, div-lt}
use udp_stuff.Bits.Fields.{bit_or_shifted, add_scaled-lt, add_scaled-div}
use udp_stuff.Bits.Writer.{
  Writer, get_bit_pos, put, put_words, join, write_uint, write_inside, write_across,
}
use udp_stuff.Bits.Writer.Value.{
  words, value, Full, Fits, Started, Full-put, length-put, words-put-rest,
}

module _ (w : ℕ) where
  -- What `put_words` ends with for a value `v` of `n` bits, behind the words `out`.
  pub record Put (out : List ℕ) (v n : ℕ) (result : List ℕ × ℕ × ℕ) : Type 0 where
    pub full : Full w result.0
    pub total :
        words w result.0 + result.1 * 2 ^ (length result.0 * w)
        ≡ words w out + v * 2 ^ (length out * w)
    pub bits : length result.0 * w + result.2 ≡ length out * w + n
    pub last : result.1 < 2 ^ result.2
    pub room : result.2 ≤ w
    pub started : 0 < n → 0 < result.2

  put_step :
      (out : List ℕ) (v n : ℕ)
      → ltb w n ≡ true
      → (r : List ℕ × ℕ × ℕ) → Put (put w out v) (v / 2 ^ w) (n - w) r
      → Put out v n r
  put_step out v n more r p = record {
    full = p.full;
    total = omega (arith, p.total, words-put-rest w out v);
    bits = ground (arith, more, p.bits, ap (λ (t : ℕ). t * w) (length-put w out v));
    last = p.last;
    room = p.room;
    started = λ h. p.started (ground (arith, more));
  }

  pub put_words_lem :
      (wi fuel : ℕ) (out : List ℕ) (v n : ℕ)
      → 0 < w
      → n < fuel
      → n ≤ wi
      → v < 2 ^ n
      → Full w out
      → (r : List ℕ × ℕ × ℕ) × (put_words w wi fuel out v n ≡ done r) × Put out v n r
  unfolding put_words
  put_words_lem wi zero out v n pos enough le fits full = absurd (omega arith)
  put_words_lem wi (suc fuel) out v n pos enough le fits full = elim (Bool-cases (ltb w n)) [
    | inl more ↦
        let low : v / 2 ^ w < 2 ^ (n - w) = div-lt v (2 ^ w) (2 ^ (n - w)) (two_pow_pos w) (
          omega (
            arith,
            two_pow_add (n - w) w,
            ap (λ (t : ℕ). 2 ^ t) {x = n} {y = n - w + w} (ground (arith, more)),
          )) in
        let rest =
          put_words_lem wi fuel (put w out v) (v / 2 ^ w) (n - w) pos (ground (arith, more))
            (ground arith) low (Full-put w out v full) in
        (
          rest.0,
          ground (arith, more, shift_right-below wi v w (ground (arith, more)), rest.1),
          put_step out v n more rest.0 rest.2,
        )
    | inr stop ↦ (
      (out, v, n),
      ground (arith, stop),
      record {
        full = full;
        total = refl;
        bits = refl;
        last = fits;
        room = ground (arith, stop);
        started = λ h. h;
      },
    )
  ]

  join_lem :
      (wi : ℕ) (s : Writer) (v : ℕ)
      → w ≤ wi
      → s.bits_out < wi
      → s.out_v < 2 ^ s.bits_out
      → join w wi s v ≡ done ((s.out_v + v * 2 ^ s.bits_out) % 2 ^ w)
  unfolding join
  join_lem wi s v wide room fits =
      rw (shift_left-below wi v s.bits_out room)
        (ap done (bit_or_shifted w wi s.out_v v s.bits_out wide room fits))

  -- The state after `n` bits of value `v`.
  pub record Written (s : Writer) (v n : ℕ) (s' : Writer) : Type 0 where
    pub fits : Fits w s'
    pub started : Started w s → Started w s'
    pub bits : value w s' ≡ value w s + v * 2 ^ get_bit_pos w s
    pub end : get_bit_pos w s' ≡ get_bit_pos w s + n

  below_word : (x k : ℕ) → k ≤ w → x < 2 ^ k → x < 2 ^ w
  below_word x k le h = omega (arith, pow-le-pow_right {n = 2} (omega arith) {i = k} {j = w} le)

  value-total :
      (s : Writer) (v : ℕ)
      → words w s.out + (s.out_v + v * 2 ^ s.bits_out) * 2 ^ (length s.out * w)
        ≡ value w s + v * 2 ^ get_bit_pos w s
  unfolding value get_bit_pos
  value-total s v = omega (arith, ap (λ (t : ℕ). v * t) (two_pow_add (length s.out * w) s.bits_out))

  module _ (wi : ℕ) (s : Writer) (v n : ℕ) (wide : w ≤ wi) (below : s.bits_out < wi)
      (le : n ≤ wi) where
    write_inside_lem :
        v < 2 ^ n
        → n ≤ w - s.bits_out
        → Fits w s
        → (s' : Writer) × (write_inside w wi s v n ≡ done s') × Written s v n s'
    unfolding value get_bit_pos Started
    write_inside_lem small inside f =
        let V = s.out_v + v * 2 ^ s.bits_out in
        let open_word : V < 2 ^ (s.bits_out + n) =
          add_scaled-lt s.out_v v s.bits_out n f.open_word small in
        let same : V % 2 ^ w ≡ V =
          mod-eq_of_lt {n = V} {m = 2 ^ w}
            (below_word V (s.bits_out + n) (ground (arith, f.room)) open_word) in
        (
          record { out = s.out; out_v = V; bits_out = s.bits_out + n },
          rw (join_lem wi s v wide below f.open_word) (rw same refl),
          record {
            fits = record { full = f.full; open_word = open_word; room = ground (arith, f.room) };
            started = λ st. ground (arith, st);
            bits = value-total s v;
            end = omega arith;
          },
        )

    write_across_lem :
        0 < w
        → v < 2 ^ n
        → w - s.bits_out < n
        → Fits w s
        → (s' : Writer) × (write_across w wi s v n ≡ done s') × Written s v n s'
    unfolding value get_bit_pos Started
    write_across_lem pos small across f =
        let V = s.out_v + v * 2 ^ s.bits_out in
        let n' : ℕ = n - (w - s.bits_out) in
        let total : V < 2 ^ (s.bits_out + n) =
          add_scaled-lt s.out_v v s.bits_out n f.open_word small in
        let word : put w s.out (V % 2 ^ w) ≡ put w s.out V =
          ap (λ (t : ℕ). s.out ++ (t ∷ [])) (mod-mod V (2 ^ w)) in
        let rest : v / 2 ^ (w - s.bits_out) ≡ V / 2 ^ w = omega (
          arith,
          add_scaled-div s.out_v v s.bits_out (w - s.bits_out) f.open_word,
          ap (λ (t : ℕ). V / 2 ^ t) {x = s.bits_out + (w - s.bits_out)} {y = w}
              (ground (arith, f.room)),
        ) in
        let small' : V / 2 ^ w < 2 ^ n' = div-lt V (2 ^ w) (2 ^ n') (two_pow_pos w) (
          omega (
            arith,
            two_pow_add n' w,
            ap (λ (t : ℕ). 2 ^ t) {x = n' + w} {y = s.bits_out + n} (ground (arith, f.room)),
          )) in
        let r =
          put_words_lem wi (suc n) (put w s.out V) (V / 2 ^ w) n' pos (omega arith) (omega arith)
            small' (Full-put w s.out V f.full) in
        let same : r.0.1 % 2 ^ w ≡ r.0.1 =
          mod-eq_of_lt {n = r.0.1} {m = 2 ^ w} (below_word r.0.1 r.0.2 r.2.room r.2.last) in
        (
          record { out = r.0.0; out_v = r.0.1; bits_out = r.0.2 },
          rw (join_lem wi s v wide below f.open_word) (
              rw (shift_right-below wi v (w - s.bits_out) (omega arith))
                (rw word (rw rest (rw r.1 (rw same refl))))),
          record {
            fits = record { full = r.2.full; open_word = r.2.last; room = r.2.room };
            started = λ st. inr (r.2.started (omega arith));
            bits = omega (arith, r.2.total, words-put-rest w s.out V, value-total s v);
            end = ground (arith, r.2.bits, f.room, ap (λ (t : ℕ). t * w) (length-put w s.out V));
          },
        )

  -- In a state of the writer's form, for words of `w` bits no wider than the values of `wi` bits, a write of
  -- `n` bits of `v` returns and puts them behind those that are there, if `n` is at most `wi` and the open
  -- word has fewer than `wi` bits. (A full open word of `wi` bits is shifted by its width.)
  pub write_uint_lem :
      (wi : ℕ) (s : Writer) (v n : ℕ)
      → 0 < w
      → w ≤ wi
      → n ≤ wi
      → s.bits_out < wi
      → v < 2 ^ n
      → Fits w s
      → (s' : Writer) × (write_uint w wi s v n ≡ done s') × Written s v n s'
  unfolding write_uint
  write_uint_lem wi s v n pos wide le below small f = elim (Bool-cases (leb n (w - s.bits_out))) [
    | inl inside ↦
        rw inside (write_inside_lem wi s v n wide below le small (ground (arith, inside)) f)
    | inr across ↦
        rw across (write_across_lem wi s v n wide below le pos small (ground (arith, across)) f)
  ]
