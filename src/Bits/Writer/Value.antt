-- ===== src/Bits/Writer/Value.antt =====
-- The bits that a writer holds, as one number.
use native.Mathlib.Nat.{mod-lt}
use udp_stuff.Base.{
  ℕ, suc, ◌+◌, ◌*◌, ◌/◌, ◌%◌, ◌^◌, ◌<◌, ◌≤◌, ◌≡◌, ap, arith, List, [], ◌∷◌, length, length-append,
  ◌⊎◌,
}
use udp_stuff.Bits.Shift.{two_pow_add, two_pow_pos, split_scaled}
use udp_stuff.Bits.Writer.{Writer, put}

module _ (w : ℕ) where
  -- The first word is the lowest.
  unfoldable pub words : List ℕ → ℕ
  words [] = 0
  words (x ∷ xs) = x + 2 ^ w * words xs

  unfoldable pub value : Writer → ℕ
  unfolding words
  value s = words s.out + s.out_v * 2 ^ (length s.out * w)

  pub data Full : List ℕ → Type 0 where
    full_nil : Full []
    full_word : {x : ℕ} {xs : List ℕ} → x < 2 ^ w → Full xs → Full (x ∷ xs)

  -- The state between two writes.
  pub record Fits (s : Writer) : Type 0 where
    pub full : Full s.out
    pub open_word : s.out_v < 2 ^ s.bits_out
    pub room : s.bits_out ≤ w

  -- No word is open only before the first bit.
  unfoldable pub Started : Writer → Type 0
  Started s = (length s.out ≡ 0) ⊎ (0 < s.bits_out)

  pub no_words : (a : ℕ) → words [] + a * 2 ^ (length {A = ℕ} [] * w) ≡ a
  unfolding words
  no_words a =
      omega (arith, ap (λ (t : ℕ). a * 2 ^ t) {x = length {A = ℕ} [] * w} {y = 0} (omega arith))

  pub Full-put : (xs : List ℕ) (v : ℕ) → Full xs → Full (put w xs v)
  Full-put [] v full_nil = full_word (mod-lt v (two_pow_pos w)) full_nil
  Full-put (x ∷ xs) v (full_word h rest) = full_word h (Full-put xs v rest)

  pub two_pow_words :
      (x : ℕ) (xs : List ℕ) → 2 ^ (length (x ∷ xs) * w) ≡ 2 ^ w * 2 ^ (length xs * w)
  two_pow_words x xs = omega (
    arith,
    two_pow_add w (length xs * w),
    ap (λ (t : ℕ). 2 ^ t) {x = suc (length xs) * w} {y = w + length xs * w} (omega arith),
  )

  pub length-put : (xs : List ℕ) (v : ℕ) → length (put w xs v) ≡ suc (length xs)
  length-put xs v = omega (arith, length-append xs (v % 2 ^ w ∷ []))

  pub words-put :
      (xs : List ℕ) (v : ℕ) → words (put w xs v) ≡ words xs + v % 2 ^ w * 2 ^ (length xs * w)
  unfolding words
  words-put [] v = omega (arith, no_words (v % 2 ^ w))
  words-put (x ∷ xs) v = omega (
    arith,
    ap (λ (t : ℕ). v % 2 ^ w * t) (two_pow_words x xs),
    ap (λ (t : ℕ). 2 ^ w * t) (words-put xs v),
  )

  -- A value of which the low word is put and the rest is still to come.
  pub words-put-rest :
      (xs : List ℕ) (v : ℕ)
      → words (put w xs v) + v / 2 ^ w * 2 ^ (length (put w xs v) * w)
        ≡ words xs + v * 2 ^ (length xs * w)
  words-put-rest xs v = omega (
    arith,
    words-put xs v,
    ap (λ (t : ℕ). v / 2 ^ w * 2 ^ t) {x = length (put w xs v) * w} {y = w + length xs * w}
        (omega (arith, ap (λ (t : ℕ). t * w) (length-put xs v))),
    ap (λ (t : ℕ). v / 2 ^ w * t) (two_pow_add w (length xs * w)),
    split_scaled v (2 ^ w) (2 ^ (length xs * w)),
  )
