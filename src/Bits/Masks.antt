-- ===== src/Bits/Masks.antt =====
-- `|` and `&` of words with fields and masks, as arithmetic.
use Prim.Native.Nat.{bit_and, bit_or, digits, bit_and-bitwise, bit_or-bitwise}
use native.Mathlib.Nat.{
  pow-suc, mod-add-div', mod-lt, mod-eq_of_lt, mul-add-mod_self_right, div-div-eq-div-mul, zero-div,
  div-one,
}
use udp_stuff.Base.{
  ℕ, zero, suc, ◌+◌, ◌-◌, ◌*◌, ◌/◌, ◌%◌, ◌^◌, ◌<◌, ◌≤◌, ◌≡◌, refl, ap, arith, max, min,
}
use udp_stuff.Bits.Shift.{low_mask, half_scaled, two_pow_pos, half-lt}

digits_sum : (k n x y : ℕ) → x ≤ n → x < 2 ^ k → digits (λ b. b) max n x (y * 2 ^ k) ≡ x + y * 2 ^ k
digits_sum k zero zero y le fits = omega arith
digits_sum k zero (suc x) y le fits = absurd (omega arith)
digits_sum k (suc n) zero y le fits = omega arith
digits_sum zero (suc n) (suc x) y le fits = absurd (omega arith)
digits_sum (suc k) (suc n) (suc x) y le fits = omega (
  arith,
  half_scaled y k,
  ap (λ (t : ℕ). digits (λ b. b) max n (suc x / 2) t) {x = y * 2 ^ suc k / 2} {y = y * 2 ^ k}
      (omega (arith, half_scaled y k)),
  digits_sum k n (suc x / 2) y (omega arith) (half-lt (suc x) k fits),
)

-- `|` of fields that do not meet is their sum.
pub bit_or_disjoint : (k x y : ℕ) → x < 2 ^ k → bit_or x (y * 2 ^ k) ≡ x + y * 2 ^ k
bit_or_disjoint k x y fits = simp bit_or-bitwise (digits_sum k x x y (omega arith) fits)

digits_same : (n a : ℕ) → a ≤ n → digits (λ b. b) max n a 0 ≡ a
digits_same zero zero le = refl
digits_same zero (suc a) le = absurd (omega arith)
digits_same (suc n) zero le = refl
digits_same (suc n) (suc a) le = omega (arith, digits_same n (suc a / 2) (omega arith))

digits_sum_high :
    (k n a y x : ℕ) → a ≡ y * 2 ^ k → a ≤ n → x < 2 ^ k → digits (λ b. b) max n a x ≡ a + x
digits_sum_high k zero zero y x e le fits = omega arith
digits_sum_high k zero (suc a) y x e le fits = absurd (omega arith)
digits_sum_high k (suc n) zero y x e le fits = omega arith
digits_sum_high zero (suc n) (suc a) y (suc x) e le fits = absurd (omega arith)
digits_sum_high zero (suc n) (suc a) y zero e le fits =
    omega (arith, digits_same (suc n) (suc a) le)
digits_sum_high (suc k) (suc n) (suc a) y x e le fits = omega (
  arith,
  half_scaled y k,
  digits_sum_high k n (suc a / 2) y (x / 2) (omega (arith, half_scaled y k)) (omega arith)
      (half-lt x k fits),
)

pub bit_or_fields : (k y x : ℕ) → x < 2 ^ k → bit_or (y * 2 ^ k) x ≡ y * 2 ^ k + x
bit_or_fields k y x fits =
    simp bit_or-bitwise (digits_sum_high k (y * 2 ^ k) (y * 2 ^ k) y x refl (omega arith) fits)

digits_none : (n x : ℕ) → digits (λ b. 0) min n x 0 ≡ 0
digits_none zero x = refl
digits_none (suc n) zero = refl
digits_none (suc n) (suc x) = omega (arith, digits_none n (suc x / 2))

mod_double : (x k : ℕ) → x % 2 ^ suc k ≡ x / 2 % 2 ^ k * 2 + x % 2
mod_double x k = omega (
  arith,
  ap (λ (t : ℕ). t % 2 ^ suc k) {x = x}
      {y = x / 2 / 2 ^ k * 2 ^ suc k + (x / 2 % 2 ^ k * 2 + x % 2)}
      (omega (arith, half_scaled (x / 2 / 2 ^ k) k, mod-add-div' (x / 2) (2 ^ k))),
  mul-add-mod_self_right (x / 2 / 2 ^ k) (2 ^ suc k) (x / 2 % 2 ^ k * 2 + x % 2),
  mod-eq_of_lt {n = x / 2 % 2 ^ k * 2 + x % 2} {m = 2 ^ suc k}
      (omega (arith, pow-suc 2 k, mod-lt (x / 2) (two_pow_pos k))),
)

digits_low : (k n x : ℕ) → x ≤ n → digits (λ b. 0) min n x (2 ^ k - 1) ≡ x % 2 ^ k
digits_low k zero zero le = omega (arith, mod-eq_of_lt (two_pow_pos k))
digits_low k (suc n) zero le = omega (arith, mod-eq_of_lt (two_pow_pos k))
digits_low k zero (suc x) le = absurd (omega arith)
digits_low zero (suc n) (suc x) le = omega (arith, digits_none n (suc x / 2))
digits_low (suc k) (suc n) (suc x) le = omega (
  arith,
  mod_double (suc x) k,
  pow-suc 2 k,
  two_pow_pos k,
  ap (λ (t : ℕ). digits (λ b. 0) min n (suc x / 2) t) {x = (2 ^ suc k - 1) / 2} {y = 2 ^ k - 1}
      (omega (arith, pow-suc 2 k, two_pow_pos k)),
  digits_low k n (suc x / 2) (omega arith),
)

-- `&` with a low mask is the remainder.
pub bit_and_mask : (k x : ℕ) → bit_and x (low_mask k) ≡ x % 2 ^ k
bit_and_mask k x = simp bit_and-bitwise (digits_low k x x (omega arith))

zero_field : (k c : ℕ) → 0 / 2 ^ k % 2 ^ c * 2 ^ k ≡ 0
zero_field k c = omega (
  arith,
  ap (λ (t : ℕ). t * 2 ^ k) {x = 0 / 2 ^ k % 2 ^ c} {y = 0}
      (rw (zero-div (2 ^ k)) (mod-eq_of_lt (two_pow_pos c))),
)

digits_high :
    (k n c x : ℕ)
    → x ≤ n
    → digits (λ b. 0) min n x ((2 ^ c - 1) * 2 ^ k) ≡ x / 2 ^ k % 2 ^ c * 2 ^ k
digits_high zero n c x le = omega (
  arith,
  ap (λ (t : ℕ). digits (λ b. 0) min n x t) {x = (2 ^ c - 1) * 1} {y = 2 ^ c - 1} (omega arith),
  digits_low c n x le,
  ap (λ (t : ℕ). t % 2 ^ c) (div-one x),
)
digits_high (suc k) zero c zero le = omega (arith, zero_field (suc k) c)
digits_high (suc k) (suc n) c zero le = omega (arith, zero_field (suc k) c)
digits_high (suc k) zero c (suc x) le = absurd (omega arith)
digits_high (suc k) (suc n) c (suc x) le = omega (
  arith,
  half_scaled (2 ^ c - 1) k,
  ap (λ (t : ℕ). digits (λ b. 0) min n (suc x / 2) t) {x = (2 ^ c - 1) * 2 ^ suc k / 2}
      {y = (2 ^ c - 1) * 2 ^ k} (omega (arith, half_scaled (2 ^ c - 1) k)),
  digits_high k n c (suc x / 2) (omega arith),
  half_scaled (suc x / 2 / 2 ^ k % 2 ^ c) k,
  ap (λ (t : ℕ). t % 2 ^ c * 2 ^ suc k) {x = suc x / 2 ^ suc k} {y = suc x / 2 / 2 ^ k}
      (omega (
        arith,
        div-div-eq-div-mul (suc x) 2 (2 ^ k),
        ap (λ (t : ℕ). suc x / t) {x = 2 ^ suc k} {y = 2 * 2 ^ k} (omega (arith, pow-suc 2 k)),
      )),
)

-- `&` with a mask of `c` ones above `k` zeros
pub bit_and_high : (k c x : ℕ) → bit_and x ((2 ^ c - 1) * 2 ^ k) ≡ x / 2 ^ k % 2 ^ c * 2 ^ k
bit_and_high k c x = simp bit_and-bitwise (digits_high k x c x (omega arith))
