-- ===== src/Bits/Writer.antt =====
-- proto/bit_writer.h, `BitBufferWriter<Tn>::write_uint<Ti>`, for words of `w` bits and values of
-- `wi` bits.
pub mod Value
pub mod Refine
pub mod Unique
pub mod At
use udp_stuff.Base.{
  ℕ, zero, suc, ◌+◌, ◌-◌, ◌*◌, ◌/◌, ◌%◌, ◌^◌, ltb, leb, if◌then◌else◌, List, [], ◌∷◌, ◌++◌, length,
  get_elem?, set, Option, some, none, Outcome, done, fault, hangs, ◌>>=◌, true, false,
}
use Prim.Native.Nat.{bit_and, bit_or}
use udp_stuff.Bits.Shift.{shift_left, shift_right, low_mask, complement}

pub record Writer : Type 0 where
  pub out : List ℕ
  pub out_v : ℕ
  pub bits_out : ℕ

abbrev pub empty : Writer
empty = record { out = []; out_v = 0; bits_out = 0 }

module _ (w : ℕ) where
  unfoldable pub get_bit_pos : Writer → ℕ
  get_bit_pos s = length s.out * w + s.bits_out

  -- `put`: the value is cast to a word.
  abbrev pub put : List ℕ → ℕ → List ℕ
  put out v = out ++ (v % 2 ^ w ∷ [])

  -- The `while` of `write_uint`, on fuel: the words that are full.
  unfoldable pub put_words : ℕ → ℕ → List ℕ → ℕ → ℕ → Outcome (List ℕ × ℕ × ℕ)
  put_words wi zero out v n = hangs
  put_words wi (suc fuel) out v n = elim (ltb w n) [
    | true ↦ shift_right wi v w >>= λ v'. put_words wi fuel (put out v) v' (n - w)
    | false ↦ done (out, v, n)
  ]

  -- `out_v |= v << bits_out`
  unfoldable pub join : ℕ → Writer → ℕ → Outcome ℕ
  join wi s v = shift_left wi v s.bits_out >>= λ x. done (bit_or s.out_v x % 2 ^ w)

  -- The value fits into the open word.
  abbrev pub write_inside : ℕ → Writer → ℕ → ℕ → Outcome Writer
  write_inside wi s v n = do
    out_v ← join wi s v
    done (record { out = s.out; out_v = out_v; bits_out = s.bits_out + n })

  -- The value fills the open word and goes on.
  abbrev pub write_across : ℕ → Writer → ℕ → ℕ → Outcome Writer
  write_across wi s v n = do
    out_v ← join wi s v
    v' ← shift_right wi v (w - s.bits_out)
    (out, last, left) ← put_words wi (suc n) (put s.out out_v) v' (n - (w - s.bits_out))
    done (record { out = out; out_v = last % 2 ^ w; bits_out = left })

  unfoldable pub write_uint : ℕ → Writer → ℕ → ℕ → Outcome Writer
  unfolding join put_words
  write_uint wi s v n =
      if leb n (w - s.bits_out) then write_inside wi s v n else write_across wi s v n
