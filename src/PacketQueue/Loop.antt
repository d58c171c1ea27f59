-- ===== src/PacketQueue/Loop.antt =====
-- `for (uint16_t i = start; i != end; i++)`, the loop of every operation of packet_queue.h.
use udp_stuff.Base.{
  ℕ, zero, suc, ◌+◌, ◌^◌, ◌<◌, ◌≡◌, refl, arith, Bool, true, false, List, [], ◌∷◌, ◌==◌, ltb, ap,
  fun_ext, Outcome, done, hangs, ◌>>=◌, u16, sub16,
}

-- A round goes on with a state, or leaves the function with a result.
pub data Flow {ℓ κ} (S : Type ℓ) (R : Type κ) : Type (ℓ ⊔ κ) where
  next : S → Flow S R
  leave : R → Flow S R

abbrev pub after : {S R : Type 0} → (S → Outcome (Flow S R)) → Flow S R → Outcome (Flow S R)
after k (next s) = k s
after k (leave a) = done (leave a)

module _ {S R : Type 0} (body : ℕ → S → Outcome (Flow S R)) where
  unfoldable pub for_seq : ℕ → ℕ → ℕ → S → Outcome (Flow S R)
  for_seq zero i end s = hangs
  for_seq (suc fuel) i end s = elim (i == end) [
    | true ↦ done (next s)
    | false ↦ (body i s >>= after (λ t. for_seq fuel (u16 (i + 1)) end t))
  ]

  -- The same rounds over a list of sequence numbers.
  abbrev pub for_each : List ℕ → S → Outcome (Flow S R)
  for_each [] s = done (next s)
  for_each (i ∷ is) s = body i s >>= after (for_each is)

-- `n` sequence numbers from `i` on, going round at 2 ^ 16.
abbrev pub seqs : ℕ → ℕ → List ℕ
seqs i zero = []
seqs i (suc n) = i ∷ seqs (u16 (i + 1)) n

-- The sequence numbers from `start` on and before `end`.
abbrev pub range : ℕ → ℕ → List ℕ
range start end = seqs start (sub16 end start)

-- More rounds than there are sequence numbers.
abbrev pub all_seqs : ℕ
all_seqs = 2 ^ 16

for_seq-seqs :
    {S R : Type 0} (body : ℕ → S → Outcome (Flow S R)) (n fuel i end : ℕ)
    → i < 2 ^ 16
    → end < 2 ^ 16
    → sub16 end i ≡ n
    → n < fuel
    → (s : S) → for_seq body fuel i end s ≡ for_each body (seqs i n) s
unfolding for_seq
for_seq-seqs body n zero i end hi he hn hf s = absurd (omega arith)
for_seq-seqs body zero (suc fuel) i end hi he hn hf s = ground arith
for_seq-seqs body (suc n) (suc fuel) i end hi he hn hf s =
    let e : (i == end) ≡ false = ground arith in
    rw (e, for_seq)
      (ap (λ k. body i s >>= after k)
        (fun_ext (
          for_seq-seqs body n fuel (u16 (i + 1)) end (omega arith) he (omega arith) (omega arith))))

-- The loop ends, and its rounds are the sequence numbers from `start` on and before `end`, the
-- way round 2 ^ 16 included.
pub for_seq-for_each :
    {S R : Type 0} (body : ℕ → S → Outcome (Flow S R)) (start end : ℕ) (s : S)
    → start < 2 ^ 16
    → end < 2 ^ 16
    → for_seq body all_seqs start end s ≡ for_each body (range start end) s
for_seq-for_each body start end s hs he =
    for_seq-seqs body (sub16 end start) all_seqs start end hs he refl (omega arith) s

-- Membership in a range by the distance from its start.
abbrev pub in_range : ℕ → ℕ → ℕ → Bool
in_range start end k = ltb (sub16 k start) (sub16 end start)
