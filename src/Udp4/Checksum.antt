-- ===== src/Udp4/Checksum.antt =====
-- udp4.h, `ChecksumCalculator`: the checksum of the Internet protocols.
pub mod Fold
pub mod Words
use udp_stuff.Base.{
  ℕ, zero, suc, ◌+◌, ◌-◌, ◌*◌, ◌/◌, ◌%◌, ◌^◌, Bool, true, false, List, [], ◌∷◌, Bytes, length, drop,
  ltb, ◌==◌, if◌then◌else◌, Outcome, done, fault, hangs, ◌>>=◌, u16, u32,
}
use udp_stuff.Udp4Conn.{read16}

-- The `do` loop of `add`: `n` words are left, and one word is read in any case.
unfoldable pub add_words : ℕ → Bytes → ℕ → Outcome (ℕ × Bytes)
add_words n (a ∷ b ∷ buf) sum =
    let sum' = u32 (sum + (a + b * 2 ^ 8)) in
    let rest = add_words (n - 1) buf sum' in if ltb 1 n then rest else done (sum', buf)
add_words n _ sum = fault

abbrev pub add_byte : Bytes → ℕ → Outcome ℕ
add_byte [] sum = fault
add_byte (a ∷ buf) sum = done (u32 (sum + a))

-- The last byte of an odd length is a word of its own.
unfoldable pub add : Bytes → ℕ → ℕ → Outcome ℕ
unfolding add_words
add src l sum = do
  (sum', buf) ← add_words (l / 2) src sum
  if l % 2 == 1 then add_byte buf sum' else done sum'

-- The `while` of `finish`, on fuel.
unfoldable pub fold : ℕ → ℕ → Outcome ℕ
fold zero sum = hangs
fold (suc fuel) sum = elim (ltb 0xffff sum) [
  | true ↦ fold fuel (u32 (sum / 2 ^ 16 + sum % 2 ^ 16))
  | false ↦ done sum
]

-- Three rounds are more than a sum of 32 bits takes.
abbrev pub enough_rounds : ℕ
enough_rounds = 3

-- `~sum`, as a `uint16_t`
unfoldable pub finish : ℕ → Outcome ℕ
unfolding fold
finish sum = fold enough_rounds sum >>= λ s. done (u16 (2 ^ 32 - 1 - s))
