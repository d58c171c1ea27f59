-- ===== src/Bits/Writer/At.antt =====
-- proto/bit_writer.h, `BitBufferWriter<Tn>::write_uint_at<Ti>` and `pick_data`.
pub mod Fields
use Prim.Native.Nat.{bit_and, bit_or}
use udp_stuff.Base.{
  ℕ, zero, suc, ◌+◌, ◌-◌, ◌*◌, ◌/◌, ◌%◌, ◌^◌, ltb, ◌==◌, if◌then◌else◌, true, false, List, [], ◌∷◌,
  ◌++◌, get_elem?, set, length, ◌<◌, ◌≡◌, refl, arith, Option, some, none, Outcome, done, fault,
  hangs, ◌>>=◌,
}
use udp_stuff.Bits.Shift.{shift_left, shift_right, low_mask, complement}
use udp_stuff.Bits.Writer.{Writer, put}

-- `get` of a position behind the words is undefined.
abbrev pub at_word : Option ℕ → Outcome ℕ
at_word (some x) = done x
at_word none = fault

abbrev pub get : List ℕ → ℕ → Outcome ℕ
get out pos = at_word (get_elem? out pos)

pub get-inside : (out : List ℕ) (pos : ℕ) → pos < length out → (x : ℕ) × (get out pos ≡ done x)
get-inside [] pos h = absurd (omega arith)
get-inside (x ∷ xs) zero h = (x, refl)
get-inside (x ∷ xs) (suc pos) h = get-inside xs pos (omega arith)

abbrev pub set_word : List ℕ → ℕ → ℕ → Outcome (List ℕ)
set_word out pos x = get out pos >>= λ _. done (set out pos x)

module _ (w wi : ℕ) where
  -- The field lies in one word, and ends before the word does. `~m << bits` is `(~m) << bits`.
  unfoldable pub write_within : List ℕ → ℕ → ℕ → ℕ → ℕ → Outcome (List ℕ)
  write_within out item_pos bits v n = do
    one ← shift_left w 1 n
    mask ← shift_left w (complement w (one - 1)) bits
    field ← shift_left wi v bits
    x ← get out item_pos
    set_word out item_pos (bit_or (bit_and x mask) field % 2 ^ w)

  -- The `while`, on fuel: the words in the middle of the field.
  unfoldable pub set_words : ℕ → List ℕ → ℕ → ℕ → ℕ → Outcome (List ℕ × ℕ × ℕ × ℕ)
  set_words zero out item_pos v n = hangs
  set_words (suc fuel) out item_pos v n = elim (ltb w n) [
    | true ↦ set_word out item_pos (v % 2 ^ w) >>= λ out'.
        shift_right wi v w >>= λ v'. set_words fuel out' (item_pos + 1) v' (n - w)
    | false ↦ done (out, item_pos, v, n)
  ]

  unfoldable pub write_last : List ℕ → ℕ → ℕ → ℕ → Outcome (List ℕ)
  write_last out item_pos v n = do
    one ← shift_left w 1 n
    x ← get out item_pos
    set_word out item_pos (bit_or (bit_and x (complement w (one - 1))) v % 2 ^ w)

  unfoldable pub write_over : List ℕ → ℕ → ℕ → ℕ → ℕ → Outcome (List ℕ)
  write_over out item_pos bits v n = do
    high ← shift_left w (2 ^ w - 1) bits
    field ← shift_left wi v bits
    x ← get out item_pos
    out' ← set_word out item_pos (bit_or (bit_and x (complement w high)) field % 2 ^ w)
    v' ← shift_right wi v (w - bits)
    (out'', last_pos, v'', left) ← set_words (suc n) out' (item_pos + 1) v' (n - (w - bits))
    write_last out'' last_pos v'' left

  unfoldable pub write_uint_at : Writer → ℕ → ℕ → ℕ → Outcome Writer
  unfolding write_within write_over set_words write_last
  write_uint_at s bit_pos v n =
      let bits = bit_pos % w in
      (if ltb n (w - bits)
        then write_within s.out (bit_pos / w) bits v n
        else write_over s.out (bit_pos / w) bits v n)
      >>= λ out. done (record { out = out; out_v = s.out_v; bits_out = s.bits_out })

module _ (w : ℕ) where
  -- `out_v` keeps the bits of the last word.
  unfoldable pub pick_data : Writer → List ℕ × Writer
  pick_data s =
      if s.bits_out == 0
      then (s.out, record { out = []; out_v = s.out_v; bits_out = 0 })
      else (put w s.out s.out_v, record { out = []; out_v = s.out_v; bits_out = 0 })
