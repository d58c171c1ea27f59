-- ===== src/Buffers/Packets/Copying.antt =====
-- The loops that move packets.
use udp_stuff.Base.{
  ℕ, zero, suc, ◌+◌, ◌^◌, ◌≤◌, ◌<◌, ◌≡◌, refl, ap, ap₂, sym, arith, ◌∙◌, ltb, true, Bool-cases, inl,
  inr, append-nil, append_assoc, List, [], ◌∷◌, ◌++◌, some, get_elem?, set, take, drop, length,
  done, fault,
}
use udp_stuff.Buffers.Packets.{move_packets}

module _ {P : Type 0} where
  split_lem :
      (xs : List P) (i : ℕ)
      → i < length xs
      → (x : P) × (get_elem? xs i ≡ some x) × (drop i xs ≡ x ∷ drop (suc i) xs)
  split_lem [] i h = absurd (omega arith)
  split_lem (x ∷ xs) zero h = (x, refl, refl)
  split_lem (x ∷ xs) (suc i) h = let (y, a, b) = split_lem xs i (omega arith) in (y, a, b)

  length-set : (xs : List P) (i : ℕ) (x : P) → length (set xs i x) ≡ length xs
  length-set [] i x = refl
  length-set (y ∷ ys) zero x = refl
  length-set (y ∷ ys) (suc i) x = let ih = length-set ys i x in omega arith

  take-set :
      (xs : List P) (i : ℕ) (x : P)
      → i < length xs
      → take (suc i) (set xs i x) ≡ take i xs ++ x ∷ []
  take-set [] i x h = absurd (omega arith)
  take-set (y ∷ ys) zero x h = refl
  take-set (y ∷ ys) (suc i) x h = ap (λ t. y ∷ t) (take-set ys i x (omega arith))

  move_packets-step :
      (n : ℕ) (from : List P) (from_pos : ℕ) (to : List P) (to_pos : ℕ) (p : P)
      → get_elem? from from_pos ≡ some p
      → from_pos + 1 < 2 ^ 32
      → to_pos + 1 < 2 ^ 32
      → ltb to_pos (length to) ≡ true
      → move_packets (suc n) from from_pos to to_pos
        ≡ move_packets n from (from_pos + 1) (set to to_pos p) (to_pos + 1)
  unfolding move_packets
  move_packets-step n from from_pos to to_pos p get a b room =
      rw (get, room)
        (ap₂ (λ i j. move_packets n from i (set to to_pos p) j) (omega arith) (omega arith))

  -- The first packets of the target, with those that were moved behind them.
  pub move_packets_lem :
      (n : ℕ) (from : List P) (from_pos : ℕ) (to : List P) (to_pos : ℕ)
      → from_pos + n ≤ length from
      → to_pos + n ≤ length to
      → length from < 2 ^ 32
      → length to < 2 ^ 32
      → (ps : List P) × (move_packets n from from_pos to to_pos ≡ done ps)
        × (length ps ≡ length to)
        × (take (to_pos + n) ps ≡ take to_pos to ++ take n (drop from_pos from))
  unfolding move_packets
  move_packets_lem zero from from_pos to to_pos a b c d = (
    to,
    refl,
    refl,
    ap (λ k. take k to) {x = to_pos + 0} (omega arith) ∙ sym (append-nil (take to_pos to)),
  )
  move_packets_lem (suc n) from from_pos to to_pos a b c d =
      let (p, get, rest) = split_lem from from_pos (omega arith) in
      let l = length-set to to_pos p in
      let room : ltb to_pos (length to) ≡ true = ground arith in
      let (ps, m, k, t) =
        move_packets_lem n from (from_pos + 1) (set to to_pos p) (to_pos + 1) (omega arith)
          (omega arith) c (omega arith) in
      (
        ps,
        move_packets-step n from from_pos to to_pos p get (omega arith) (omega arith) room ∙ m,
        k ∙ l,
        ap (λ i. take i ps) {x = to_pos + suc n} (omega arith)
            ∙ t
            ∙ ap₂ (λ x y. x ++ take n y)
                (ap (λ i. take i (set to to_pos p)) {x = to_pos + 1} {y = suc to_pos} (omega arith)
                  ∙ take-set to to_pos p (omega arith))
                (ap (λ i. drop i from) {x = from_pos + 1} {y = suc from_pos} (omega arith))
            ∙ append_assoc (take to_pos to) (p ∷ []) (take n (drop (suc from_pos) from))
            ∙ ap (λ x. take to_pos to ++ take (suc n) x) (sym rest),
      )

  pub move_packets-fault :
      (n : ℕ) (from : List P) (from_pos : ℕ) (to : List P) (to_pos : ℕ)
      → from_pos + n ≤ length from
      → length to < to_pos + n
      → to_pos ≤ length to
      → length from < 2 ^ 32
      → length to < 2 ^ 32
      → move_packets n from from_pos to to_pos ≡ fault
  unfolding move_packets
  move_packets-fault zero from from_pos to to_pos a b f c d = absurd (omega arith)
  move_packets-fault (suc n) from from_pos to to_pos a b f c d =
      let (p, get, rest) = split_lem from from_pos (omega arith) in
      let l = length-set to to_pos p in
      elim (Bool-cases (ltb to_pos (length to))) [
        | inl room ↦
            let less : to_pos < length to = ground arith in
            move_packets-step n from from_pos to to_pos p get (omega arith) (omega arith) room
            ∙ (move_packets-fault n from (from_pos + 1) (set to to_pos p) (to_pos + 1) (omega arith)
                (omega arith) (omega arith) c (omega arith))
        | inr full ↦ rw (get, full) refl
      ]
