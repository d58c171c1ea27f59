-- ===== src/Bits/Fields.antt =====
-- Fields that are shifted to their place, within a word and beyond its end.
use Prim.Native.Nat.{bit_or}
use native.Mathlib.Nat.{
  pow-suc, mod-add-div', pow-le-pow_right, mod-lt, mod-eq_of_lt, mul-add-mod_self_right,
  mul-lt-mul_of_pos_right, mul-le-mul_right, div-div-eq-div-mul, add-mul-div_right, div-eq_of_lt,
  one-mul, add-mul-mod_self_right,
}
use udp_stuff.Base.{ℕ, zero, suc, ◌+◌, ◌-◌, ◌*◌, ◌/◌, ◌%◌, ◌^◌, ◌<◌, ◌≤◌, ◌≡◌, ap, arith}
use udp_stuff.Bits.Masks.{bit_or_disjoint}
use udp_stuff.Bits.Shift.{low_mask, complement, two_pow_add, two_pow_pos, split_scaled}

pub scaled-mod : (x c b : ℕ) → x * 2 ^ b % 2 ^ (c + b) ≡ x % 2 ^ c * 2 ^ b
scaled-mod x c b = omega (
  arith,
  ap (λ (t : ℕ). t % 2 ^ (c + b)) {x = x * 2 ^ b} {y = x / 2 ^ c * 2 ^ (c + b) + x % 2 ^ c * 2 ^ b}
      (omega
        (arith, ap (λ (t : ℕ). x / 2 ^ c * t) (two_pow_add c b), split_scaled x (2 ^ c) (2 ^ b))),
  mul-add-mod_self_right (x / 2 ^ c) (2 ^ (c + b)) (x % 2 ^ c * 2 ^ b),
  mod-eq_of_lt {n = x % 2 ^ c * 2 ^ b} {m = 2 ^ (c + b)} (
      omega (
        arith,
        two_pow_add c b,
        mul-lt-mul_of_pos_right {k = 2 ^ b} (mod-lt x (two_pow_pos c)) (two_pow_pos b),
      )),
)

pub add_scaled-lt : (x v b n : ℕ) → x < 2 ^ b → v < 2 ^ n → x + v * 2 ^ b < 2 ^ (b + n)
add_scaled-lt x v b n hx hv =
    omega (arith, two_pow_add b n, mul-le-mul_right {m = suc v} (2 ^ b) hv)

pub add_scaled-div : (x v b c : ℕ) → x < 2 ^ b → (x + v * 2 ^ b) / 2 ^ (b + c) ≡ v / 2 ^ c
add_scaled-div x v b c hx = omega (
  arith,
  ap (λ (t : ℕ). (x + v * 2 ^ b) / t) (two_pow_add b c),
  div-div-eq-div-mul (x + v * 2 ^ b) (2 ^ b) (2 ^ c),
  ap (λ (t : ℕ). t / 2 ^ c) {x = (x + v * 2 ^ b) / 2 ^ b} {y = v}
      (omega (arith, add-mul-div_right x v (two_pow_pos b), div-eq_of_lt hx)),
)

-- A wider word keeps what the narrower one would hold.
pub mod_two_pow_mod : (x w d : ℕ) → x % 2 ^ (w + d) % 2 ^ w ≡ x % 2 ^ w
mod_two_pow_mod x w d = omega (
  arith,
  ap (λ (t : ℕ). t % 2 ^ w) {x = x} {y = x % 2 ^ (w + d) + x / 2 ^ (w + d) * 2 ^ d * 2 ^ w}
      (omega (
        arith,
        mod-add-div' x (2 ^ (w + d)),
        ap (λ (t : ℕ). x / 2 ^ (w + d) * t) (two_pow_add w d),
      )),
  add-mul-mod_self_right (x % 2 ^ (w + d)) (x / 2 ^ (w + d) * 2 ^ d) (2 ^ w),
)

-- The bits of `v << b` that the value's type drops are beyond the word.
dropped :
    (w x v b c d : ℕ) → w + d ≡ c + b → (x + v % 2 ^ c * 2 ^ b) % 2 ^ w ≡ (x + v * 2 ^ b) % 2 ^ w
dropped w x v b c d e = omega (
  arith,
  ap (λ (t : ℕ). t % 2 ^ w) {x = x + v * 2 ^ b}
      {y = x + v % 2 ^ c * 2 ^ b + v / 2 ^ c * 2 ^ d * 2 ^ w}
      (omega (
        arith,
        split_scaled v (2 ^ c) (2 ^ b),
        ap (λ (t : ℕ). v / 2 ^ c * t) (two_pow_add c b),
        ap (λ (t : ℕ). v / 2 ^ c * t) (two_pow_add w d),
        ap (λ (t : ℕ). v / 2 ^ c * 2 ^ t) e,
      )),
  add-mul-mod_self_right (x + v % 2 ^ c * 2 ^ b) (v / 2 ^ c * 2 ^ d) (2 ^ w),
)

pub bit_or_shifted :
    (w wi x v b : ℕ)
    → w ≤ wi
    → b < wi
    → x < 2 ^ b
    → bit_or x (v * 2 ^ b % 2 ^ wi) % 2 ^ w ≡ (x + v * 2 ^ b) % 2 ^ w
bit_or_shifted w wi x v b wide room fits =
    let shifted : v * 2 ^ b % 2 ^ wi ≡ v % 2 ^ (wi - b) * 2 ^ b = omega (
      arith,
      scaled-mod v (wi - b) b,
      ap (λ (t : ℕ). v * 2 ^ b % 2 ^ t) {x = wi} {y = wi - b + b} (omega arith),
    ) in
    rw shifted (
      rw (bit_or_disjoint b x (v % 2 ^ (wi - b)) fits)
        (dropped w x v b (wi - b) (wi - w) (omega arith)))

-- A field on top of the bits below it stays in the word.
pub field_shifted :
    (w wi v b n : ℕ) → w ≤ wi → b + n ≤ w → v < 2 ^ n → v * 2 ^ b % 2 ^ wi ≡ v * 2 ^ b
field_shifted w wi v b n wide fits small = mod-eq_of_lt {n = v * 2 ^ b} {m = 2 ^ wi} (
    omega (
      arith,
      add_scaled-lt 0 v b n (two_pow_pos b) small,
      pow-le-pow_right {n = 2} (omega arith) {i = b + n} {j = wi} (omega arith),
    ))

sub_one_mul : (a n : ℕ) → 0 < a → (a - 1) * n + n ≡ a * n
sub_one_mul zero n h = absurd (omega arith)
sub_one_mul (suc a) n h = omega (arith, ap (λ (t : ℕ). t * n) {x = suc a - 1} {y = a} (omega arith))

exponent : (i j : ℕ) → i ≡ j → 2 ^ i ≡ 2 ^ j
exponent i j e = ap (λ (t : ℕ). 2 ^ t) e

ones-mod : (c d : ℕ) → (2 ^ (c + d) - 1) % 2 ^ c ≡ 2 ^ c - 1
ones-mod c d = omega (
  arith,
  ap (λ (t : ℕ). t % 2 ^ c) {x = 2 ^ (c + d) - 1} {y = (2 ^ d - 1) * 2 ^ c + (2 ^ c - 1)}
      (omega (
        arith,
        two_pow_add c d,
        sub_one_mul (2 ^ d) (2 ^ c) (two_pow_pos d),
        two_pow_pos c,
        two_pow_pos (c + d),
      )),
  mul-add-mod_self_right (2 ^ d - 1) (2 ^ c) (2 ^ c - 1),
  mod-eq_of_lt {n = 2 ^ c - 1} {m = 2 ^ c} (omega (arith, two_pow_pos c)),
)

-- `~((1 << n) - 1)`
pub complement-low : (w n : ℕ) → n ≤ w → complement w (2 ^ n - 1) ≡ (2 ^ (w - n) - 1) * 2 ^ n
complement-low w n le = omega (
  arith,
  two_pow_add (w - n) n,
  two_pow_pos n,
  two_pow_pos w,
  exponent w (w - n + n) (omega arith),
  sub_one_mul (2 ^ (w - n)) (2 ^ n) (two_pow_pos (w - n)),
)

-- `~m << b` for the mask `m` of `n` bits
pub complement-low-shifted :
    (w n b : ℕ)
    → n + b ≤ w
    → complement w (2 ^ n - 1) * 2 ^ b % 2 ^ w ≡ (2 ^ (w - (n + b)) - 1) * 2 ^ (n + b)
complement-low-shifted w n b le =
    let c : ℕ = w - (n + b) in
    omega (
      arith,
      ap (λ (t : ℕ). t % 2 ^ w) {x = complement w (2 ^ n - 1) * 2 ^ b}
          {y = (2 ^ (w - n) - 1) * 2 ^ (n + b)}
          (omega (
            arith,
            ap (λ (t : ℕ). t * 2 ^ b) (complement-low w n (omega arith)),
            ap (λ (t : ℕ). (2 ^ (w - n) - 1) * t) (two_pow_add n b),
          )),
      ap (λ (t : ℕ). (2 ^ (w - n) - 1) * 2 ^ (n + b) % t) (exponent w (c + (n + b)) (omega arith)),
      scaled-mod (2 ^ (w - n) - 1) c (n + b),
      ap (λ (t : ℕ). (t - 1) % 2 ^ c * 2 ^ (n + b)) (exponent (w - n) (c + b) (omega arith)),
      ap (λ (t : ℕ). t * 2 ^ (n + b)) (ones-mod c b),
    )

-- `~(-1 << b)`
pub complement-ones-shifted :
    (w b : ℕ) → b ≤ w → complement w ((2 ^ w - 1) * 2 ^ b % 2 ^ w) ≡ low_mask b
complement-ones-shifted w b le =
    let c : ℕ = w - b in
    omega (
      arith,
      ap (λ (t : ℕ). (2 ^ w - 1) * 2 ^ b % t) (exponent w (c + b) (omega arith)),
      scaled-mod (2 ^ w - 1) c b,
      ap (λ (t : ℕ). (t - 1) % 2 ^ c * 2 ^ b) (exponent w (c + b) (omega arith)),
      ap (λ (t : ℕ). t * 2 ^ b) (ones-mod c b),
      sub_one_mul (2 ^ c) (2 ^ b) (two_pow_pos c),
      two_pow_add c b,
      exponent w (c + b) (omega arith),
      two_pow_pos b,
      two_pow_pos w,
    )

pow-lt : (w n : ℕ) → n < w → 2 ^ n < 2 ^ w
pow-lt w n h = omega (
  arith,
  pow-suc 2 n,
  two_pow_pos n,
  pow-le-pow_right {n = 2} (omega arith) {i = suc n} {j = w} h,
)

-- `1 << n`
pub one_shifted : (w n : ℕ) → n < w → 1 * 2 ^ n % 2 ^ w ≡ 2 ^ n
one_shifted w n h = rw (one-mul (2 ^ n)) (mod-eq_of_lt {n = 2 ^ n} {m = 2 ^ w} (pow-lt w n h))
