-- ===== src/Bits/Shift.antt =====
-- The shifts of C on unsigned words, and powers of two.
use native.Mathlib.Nat.{pow-suc, one-le-pow, mod-add-div', div-lt_iff_lt-mul}
use native.Mathlib.Numerals.{unary_clauses}
use udp_stuff.Base.{
  ℕ, zero, suc, ◌+◌, ◌-◌, ◌*◌, ◌/◌, ◌%◌, ◌^◌, ◌<◌, ◌≡◌, ap, arith, ltb, if◌then◌else◌, Outcome,
  done, fault,
}

-- A shift of a word of `width` bits by `k` places is undefined from `width` places on.
unfoldable pub shift_left : ℕ → ℕ → ℕ → Outcome ℕ
shift_left width x k = if ltb k width then done (x * 2 ^ k % 2 ^ width) else fault

unfoldable pub shift_right : ℕ → ℕ → ℕ → Outcome ℕ
shift_right width x k = if ltb k width then done (x / 2 ^ k) else fault

pub shift_left-below :
    (width x k : ℕ) → k < width → shift_left width x k ≡ done (x * 2 ^ k % 2 ^ width)
unfolding shift_left
shift_left-below width x k h = ground arith

pub shift_right-below : (width x k : ℕ) → k < width → shift_right width x k ≡ done (x / 2 ^ k)
unfolding shift_right
shift_right-below width x k h = ground arith

-- `(1 << k) - 1`
abbrev pub low_mask : ℕ → ℕ
low_mask k = 2 ^ k - 1

-- `~x` of a word of `width` bits
abbrev pub complement : ℕ → ℕ → ℕ
complement width x = 2 ^ width - 1 - x

pub half_scaled : (y k : ℕ) → y * 2 ^ suc k ≡ 2 * (y * 2 ^ k)
half_scaled y k = omega (arith, ap (λ (t : ℕ). y * t) (pow-suc 2 k))

pub two_pow_add : (a b : ℕ) → 2 ^ (a + b) ≡ 2 ^ a * 2 ^ b
two_pow_add a zero = simp unary_clauses (omega arith)
two_pow_add a (suc b) = omega (
  arith,
  two_pow_add a b,
  pow-suc 2 (a + b),
  ap (λ (t : ℕ). 2 ^ t) {x = a + suc b} {y = suc (a + b)} (omega arith),
  half_scaled (2 ^ a) b,
)

pub two_pow_pos : (k : ℕ) → 0 < 2 ^ k
two_pow_pos k = omega (arith, one-le-pow k 2 (omega arith))

-- The two parts of `v` at `m`, each scaled by `p`.
pub split_scaled : (v m p : ℕ) → v % m * p + v / m * (m * p) ≡ v * p
split_scaled v m p = omega (arith, ap (λ (t : ℕ). t * p) (mod-add-div' v m))

pub split_word : (v m : ℕ) → v % m + m * (v / m) ≡ v
split_word v m = omega (arith, mod-add-div' v m)

pub div-lt : (v m p : ℕ) → 0 < m → v < p * m → v / m < p
div-lt v m p pos h = (div-lt_iff_lt-mul {k = m} {x = v} {y = p} pos).1 h

pub half-lt : (x k : ℕ) → x < 2 ^ suc k → x / 2 < 2 ^ k
half-lt x k h = omega (arith, pow-suc 2 k)
