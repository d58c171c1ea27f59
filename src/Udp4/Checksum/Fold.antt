-- ===== src/Udp4/Checksum/Fold.antt =====
-- `finish` folds the sum to 16 bits and complements it.
use udp_stuff.Base.{
  ℕ, suc, ◌+◌, ◌-◌, ◌/◌, ◌%◌, ◌^◌, ◌≤◌, ◌<◌, ◌≡◌, arith, done, u16, u32, dec_lt, ◌∙◌,
}
use udp_stuff.Udp4.Checksum.{fold, finish, enough_rounds}

fold_end : (fuel sum : ℕ) → sum ≤ 0xffff → fold (suc fuel) sum ≡ done sum
unfolding fold
fold_end fuel sum h = ground arith

fold_step :
    (fuel sum : ℕ)
    → 0xffff < sum
    → fold (suc fuel) sum ≡ fold fuel (u32 (sum / 2 ^ 16 + sum % 2 ^ 16))
unfolding fold
fold_step fuel sum h = ground arith

-- A folded sum: a word, the same modulo 2 ^ 16 - 1, and 0 only for 0.
record Folded (sum r : ℕ) : Type 0 where
  word : r ≤ 0xffff
  same : r % 0xffff ≡ sum % 0xffff
  zero_only : r ≡ 0 → sum ≡ 0

fold-Folded : (sum : ℕ) → sum < 2 ^ 32 → (r : ℕ) × (fold enough_rounds sum ≡ done r) × Folded sum r
fold-Folded sum h = elim (dec_lt 0xffff sum) [
  | no low ↦ (sum, fold_end 2 sum (omega arith), omega arith)
  | yes high ↦
      let s = u32 (sum / 2 ^ 16 + sum % 2 ^ 16) in
      elim (dec_lt 0xffff s) [
        | no low ↦ (s, fold_step 2 sum high ∙ fold_end 1 s (omega arith), omega arith)
        | yes high' ↦
            let t = u32 (s / 2 ^ 16 + s % 2 ^ 16) in
            (
              t,
              fold_step 2 sum high ∙ fold_step 1 s high' ∙ fold_end 0 t (omega arith),
              omega arith,
            )
      ]
]

-- `finish` returns a word that makes up 2 ^ 16 - 1, modulo 2 ^ 16 - 1, with the sum. It is
-- 2 ^ 16 - 1 only for a sum of 0.
pub finish_lem :
    (sum : ℕ)
    → sum < 2 ^ 32
    → (c : ℕ) × (finish sum ≡ done c)
      × (c < 2 ^ 16)
      × ((sum + c) % 0xffff ≡ 0)
      × (c ≡ 0xffff → sum ≡ 0)
unfolding finish
finish_lem sum h =
    let (r, run, f) = fold-Folded sum h in
    (
      u16 (2 ^ 32 - 1 - r),
      rw run,
      omega (arith, f.word),
      omega arith,
      λ e. f.zero_only (omega (arith, f.word)),
    )
