-- ===== src/Bits/Writer/At/Fields.antt =====
-- `write_uint_at` on a field in one word, and on a field that goes over into the next word.
use native.Mathlib.Nat.{mod-lt, mod-eq_of_lt}
use Prim.Native.Nat.{bit_and, bit_or}
use udp_stuff.Base.{
  ℕ, suc, ◌+◌, ◌-◌, ◌*◌, ◌/◌, ◌%◌, ◌^◌, ◌<◌, ◌≤◌, ◌≡◌, refl, ap, arith, List, get_elem?, set,
  get_elem?-set, ◌∙◌, false, some, done, ltb, true,
}
use udp_stuff.Bits.Shift.{
  shift_left-below, shift_right-below, complement, two_pow_add, two_pow_pos, div-lt,
}
use udp_stuff.Bits.Masks.{bit_or_fields, bit_and_mask, bit_and_high}
use udp_stuff.Bits.Fields.{
  bit_or_shifted, add_scaled-lt, field_shifted, complement-low, complement-low-shifted,
  complement-ones-shifted, one_shifted,
}
use udp_stuff.Bits.Writer.{Writer}
use udp_stuff.Bits.Writer.At.{
  at_word, get, write_within, set_words, write_last, write_over, write_uint_at,
}

module _ (w wi : ℕ) (wide : w ≤ wi) where
  get-some : (out : List ℕ) (i x : ℕ) → get_elem? out i ≡ some x → get out i ≡ done x
  get-some out i x h = ap at_word h

  top : (x k : ℕ) → k ≤ w → x < 2 ^ w → x / 2 ^ k < 2 ^ (w - k)
  top x k le h = div-lt x (2 ^ k) (2 ^ (w - k)) (two_pow_pos k) (
      omega
        (arith, two_pow_add (w - k) k, ap (λ (t : ℕ). 2 ^ t) {x = w} {y = w - k + k} (omega arith)))

  -- A field of `k` bits below the bits of `x` that stay.
  replaced :
      (x f k : ℕ)
      → k ≤ w
      → x < 2 ^ w
      → f < 2 ^ k
      → bit_or (bit_and x ((2 ^ (w - k) - 1) * 2 ^ k)) f % 2 ^ w ≡ x / 2 ^ k * 2 ^ k + f
  replaced x f k le hx hf = rw (bit_and_high k (w - k) x) (
      rw (mod-eq_of_lt (top x k le hx)) (
        rw (bit_or_fields k (x / 2 ^ k) f hf) (
          mod-eq_of_lt {n = x / 2 ^ k * 2 ^ k + f} {m = 2 ^ w} (
            omega (
              arith,
              add_scaled-lt f (x / 2 ^ k) k (w - k) hf (top x k le hx),
              ap (λ (t : ℕ). 2 ^ t) {x = w} {y = k + (w - k)} (omega arith),
            )))))

  within_word :
      (x v b n : ℕ)
      → x < 2 ^ w
      → v < 2 ^ n
      → n + b < w
      → bit_or (bit_and x (complement w (2 ^ n - 1) * 2 ^ b % 2 ^ w)) (v * 2 ^ b % 2 ^ wi) % 2 ^ w
        ≡ x / 2 ^ (n + b) * 2 ^ (n + b) + v * 2 ^ b
  within_word x v b n hx hv le = rw (complement-low-shifted w n b (omega arith)) (
      rw (field_shifted w wi v b n wide (omega arith) hv) (
        replaced x (v * 2 ^ b) (n + b) (omega arith) hx (
          omega (
            arith,
            add_scaled-lt 0 v b n (two_pow_pos b) hv,
            ap (λ (t : ℕ). 2 ^ t) {x = n + b} {y = b + n} (omega arith),
          ))))

  last_word :
      (y v n : ℕ)
      → y < 2 ^ w
      → v < 2 ^ n
      → n < w
      → bit_or (bit_and y (complement w (2 ^ n - 1))) v % 2 ^ w ≡ y / 2 ^ n * 2 ^ n + v
  last_word y v n hy hv le =
      rw (complement-low w n (omega arith)) (replaced y v n (omega arith) hy hv)

  first_word :
      (x v b : ℕ)
      → b < w
      → bit_or (bit_and x (complement w ((2 ^ w - 1) * 2 ^ b % 2 ^ w))) (v * 2 ^ b % 2 ^ wi) % 2 ^ w
        ≡ (x % 2 ^ b + v * 2 ^ b) % 2 ^ w
  first_word x v b le = rw (complement-ones-shifted w b (omega arith)) (
      rw (bit_and_mask b x)
        (bit_or_shifted w wi (x % 2 ^ b) v b wide (omega arith) (mod-lt x (two_pow_pos b))))

  write_within_lem :
      (out : List ℕ) (i b v n x : ℕ)
      → n + b < w
      → v < 2 ^ n
      → x < 2 ^ w
      → get_elem? out i ≡ some x
      → write_within w wi out i b v n ≡ done (set out i (x / 2 ^ (n + b) * 2 ^ (n + b) + v * 2 ^ b))
  unfolding write_within
  write_within_lem out i b v n x le hv hx h = rw (shift_left-below w 1 n (omega arith)) (
      rw (one_shifted w n (omega arith)) (
        rw (shift_left-below w (complement w (2 ^ n - 1)) b (omega arith)) (
          rw (shift_left-below wi v b (omega arith))
            (rw h (ap (λ t. done (set out i t)) (within_word x v b n hx hv le))))))

  -- `write_uint_at` on a field that ends before its word does: the bits above it stay, and the
  -- bits of the word below it are zero.
  pub write_uint_at-within :
      (s : Writer) (p v n x : ℕ)
      → n < w - p % w
      → v < 2 ^ n
      → x < 2 ^ w
      → get_elem? s.out (p / w) ≡ some x
      → write_uint_at w wi s p v n
        ≡ done (record {
          out = set s.out (p / w) (x / 2 ^ (n + p % w) * 2 ^ (n + p % w) + v * 2 ^ (p % w));
          out_v = s.out_v;
          bits_out = s.bits_out;
        })
  unfolding write_uint_at
  write_uint_at-within s p v n x inside hv hx h =
      let yes : ltb n (w - p % w) ≡ true = ground arith in
      rw yes (rw (write_within_lem s.out (p / w) (p % w) v n x (omega arith) hv hx h) refl)

  set_words_stop :
      (fuel : ℕ) (out : List ℕ) (i v n : ℕ)
      → n ≤ w
      → set_words w wi (suc fuel) out i v n ≡ done (out, i, v, n)
  unfolding set_words
  set_words_stop fuel out i v n le = ground arith

  write_over_lem :
      (out : List ℕ) (i b v n x y : ℕ)
      → b < w
      → w - b < wi
      → w - b ≤ n
      → n - (w - b) < w
      → v < 2 ^ n
      → y < 2 ^ w
      → get_elem? out i ≡ some x
      → get_elem? out (i + 1) ≡ some y
      → write_over w wi out i b v n
        ≡ done (
            set
              (set out i ((x % 2 ^ b + v * 2 ^ b) % 2 ^ w))
              (i + 1)
              (y / 2 ^ (n - (w - b)) * 2 ^ (n - (w - b)) + v / 2 ^ (w - b)))
  unfolding write_over write_last
  write_over_lem out i b v n x y hb hw over left hv hy hx hy' =
      let out' = set out i ((x % 2 ^ b + v * 2 ^ b) % 2 ^ w) in
      let next : get_elem? out' (i + 1) ≡ some y =
        get_elem?-set out i (i + 1) ((x % 2 ^ b + v * 2 ^ b) % 2 ^ w) (λ e. omega arith) ∙ hy' in
      let small : v / 2 ^ (w - b) < 2 ^ (n - (w - b)) =
        div-lt v (2 ^ (w - b)) (2 ^ (n - (w - b))) (two_pow_pos (w - b)) (
          omega (
            arith,
            two_pow_add (n - (w - b)) (w - b),
            ap (λ (t : ℕ). 2 ^ t) {x = n} {y = n - (w - b) + (w - b)} (omega arith),
          )) in
      rw (shift_left-below w (2 ^ w - 1) b hb) (
        rw (shift_left-below wi v b (omega arith)) (
          rw hx (
            rw (first_word x v b hb) (
              rw (shift_right-below wi v (w - b) hw) (
                rw (set_words_stop n out' (i + 1) (v / 2 ^ (w - b)) (n - (w - b)) (omega arith)) (
                  rw (shift_left-below w 1 (n - (w - b)) left) (
                    rw (one_shifted w (n - (w - b)) left) (
                      rw next (
                        ap (λ t. done (set out' (i + 1) t))
                          (last_word y (v / 2 ^ (w - b)) (n - (w - b)) hy small left))))))))))

  -- `write_uint_at` on a field that goes over into the next word: the bits around the field stay.
  pub write_uint_at-over :
      (s : Writer) (p v n x y : ℕ)
      → 0 < w
      → w - p % w < wi
      → w - p % w ≤ n
      → n - (w - p % w) < w
      → v < 2 ^ n
      → y < 2 ^ w
      → get_elem? s.out (p / w) ≡ some x
      → get_elem? s.out (p / w + 1) ≡ some y
      → write_uint_at w wi s p v n
        ≡ done (record {
          out =
              set
                (set s.out (p / w) ((x % 2 ^ (p % w) + v * 2 ^ (p % w)) % 2 ^ w))
                (p / w + 1)
                (y / 2 ^ (n - (w - p % w)) * 2 ^ (n - (w - p % w)) + v / 2 ^ (w - p % w));
          out_v = s.out_v;
          bits_out = s.bits_out;
        })
  unfolding write_uint_at
  write_uint_at-over s p v n x y pos hw over left hv hy hx hy' =
      let no : ltb n (w - p % w) ≡ false = ground arith in
      rw no (
        rw (write_over_lem s.out (p / w) (p % w) v n x y (mod-lt p pos) hw over left hv hy hx hy')
          refl)
