-- ===== src/Udp4/Checksum/Words.antt =====
-- `add` sums the 16-bit words of its data.
use udp_stuff.Base.{
  ℕ, zero, suc, ◌+◌, ◌-◌, ◌*◌, ◌/◌, ◌%◌, ◌^◌, ◌≤◌, ◌<◌, ◌≡◌, refl, arith, true, [], ◌∷◌, ltb, done,
  u32, Bytes, length, take, drop, ap, ℕ_discrete,
}
use udp_stuff.Udp4.Checksum.{add_words, add}

-- The words, the low byte of each first; an odd last byte is a word of its own.
abbrev pub word_sum : Bytes → ℕ
word_sum [] = 0
word_sum (a ∷ []) = a
word_sum (a ∷ b ∷ bs) = a + b * 2 ^ 8 + word_sum bs

abbrev twice : ℕ → ℕ
twice zero = 0
twice (suc n) = suc (suc (twice n))

twice_lem : (n : ℕ) → twice n ≡ 2 * n
twice_lem zero = refl
twice_lem (suc n) = omega (arith, twice_lem n)

add_words_lem :
    (n : ℕ) (src : Bytes) (sum : ℕ)
    → twice (suc n) ≤ length src
    → add_words (suc n) src sum
      ≡ done (u32 (sum + word_sum (take (twice (suc n)) src)), drop (twice (suc n)) src)
unfolding add_words
add_words_lem n [] sum h = absurd (omega arith)
add_words_lem n (a ∷ []) sum h = absurd (omega arith)
add_words_lem zero (a ∷ b ∷ src) sum h = ground arith
add_words_lem (suc n) (a ∷ b ∷ src) sum h =
    let s = u32 (sum + (a + b * 2 ^ 8)) in
    let more : ltb 1 (suc (suc n)) ≡ true = ground arith in
    let rest : suc (suc n) - 1 ≡ suc n = omega arith in
    rw (more, rest, add_words_lem n src s (omega arith))
      (ap (λ t. done (t, drop (twice (suc n)) src))
        {x = u32 (s + word_sum (take (twice (suc n)) src))} (omega arith))

-- The odd byte behind an even number of bytes.
word_sum_odd :
    (n : ℕ) (src : Bytes)
    → twice n < length src
    → (a : ℕ) × (rest : Bytes) × (drop (twice n) src ≡ a ∷ rest)
      × (word_sum (take (suc (twice n)) src) ≡ word_sum (take (twice n) src) + a)
word_sum_odd zero [] h = absurd (omega arith)
word_sum_odd zero (a ∷ src) h = (a, src, refl, omega arith)
word_sum_odd (suc n) [] h = absurd (omega arith)
word_sum_odd (suc n) (a ∷ []) h = absurd (omega arith)
word_sum_odd (suc n) (a ∷ b ∷ src) h =
    let (c, rest, e, s) = word_sum_odd n src (omega arith) in (c, rest, e, omega (arith, s))

-- For data of two bytes and more, `add` adds the words of the first `l` bytes to the sum, modulo
-- 2 ^ 32, and reads nothing behind them.
pub add_lem :
    (src : Bytes) (l sum : ℕ)
    → 2 ≤ l
    → l ≤ length src
    → add src l sum ≡ done (u32 (sum + word_sum (take l src)))
unfolding add
add_lem src l sum two h = elim (ℕ_discrete (l % 2) 1) [
  | yes odd ↦
      let n = l / 2 - 1 in
      let half : l / 2 ≡ suc n = omega arith in
      let whole : l ≡ suc (twice (suc n)) = omega (arith, twice_lem (suc n)) in
      let (a, rest, behind, last) = word_sum_odd (suc n) src (omega arith) in
      let words = add_words_lem n src sum (omega arith) in
      let taken = ap (λ (k : ℕ). word_sum (take k src)) whole in
      let halved = ap (λ (k : ℕ). add_words k src sum) half in
      ground (arith, halved, words, behind, last, taken)
  | no even ↦
      let n = l / 2 - 1 in
      let half : l / 2 ≡ suc n = omega arith in
      let whole : l ≡ twice (suc n) = omega (arith, twice_lem (suc n)) in
      let words = add_words_lem n src sum (omega arith) in
      let taken = ap (λ (k : ℕ). word_sum (take k src)) whole in
      let halved = ap (λ (k : ℕ). add_words k src sum) half in ground (arith, halved, words, taken)
]

-- Of no bytes `add` still adds the word that lies there.
pub add_empty :
    (a b sum : ℕ) (behind : Bytes) → add (a ∷ b ∷ behind) 0 sum ≡ done (u32 (sum + (a + b * 2 ^ 8)))
unfolding add add_words
add_empty a b sum behind = ground arith
