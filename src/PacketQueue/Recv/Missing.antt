-- ===== src/PacketQueue/Recv/Missing.antt =====
-- `find_missing_packets` and `compute_range_size` against the packets of a range.
use udp_stuff.Base.{
  ℕ, zero, suc, ◌+◌, ◌^◌, ◌<◌, ◌≡◌, arith, Bool, true, false, not, Option, none, some, List, [],
  ◌∷◌, ◌++◌, append-nil, append_assoc, done, find, Option-cases, Bool-cases, inl, inr, ap, sym, u16,
  u32, sub16, if◌then◌else◌, filterb,
}
use udp_stuff.PacketQueue.Descr.{PacketDescr, is_data}
use udp_stuff.PacketQueue.Loop.{next, leave, for_each, seqs, range, for_seq-for_each}
use udp_stuff.PacketQueue.Recv.{
  PacketRecvQueue, resolve_seq, no_size, size_round, compute_range_size, missing_round,
  find_missing_packets,
}

abbrev pub is_some {ℓ} : {A : Type ℓ} → Option A → Bool
is_some none = false
is_some (some a) = true

abbrev pub all : (ℕ → Bool) → List ℕ → Bool
all p [] = true
all p (i ∷ is) = if p i then all p is else false

-- `r` says what `resolve_seq` makes of each number.
module _ (q : PacketRecvQueue) (r : ℕ → ℕ) where
  abbrev pub packet_at : ℕ → Option PacketDescr
  packet_at i = find (r i) q.packets

  abbrev pub has_packet : ℕ → Bool
  has_packet i = is_some (packet_at i)

  abbrev pub data_size_of : Option PacketDescr → ℕ
  data_size_of none = 0
  data_size_of (some d) = if is_data d then d.size else 0

  -- The sizes of the data packets, as a plain sum.
  abbrev pub data_total : List ℕ → ℕ
  data_total [] = 0
  data_total (i ∷ is) = data_size_of (packet_at i) + data_total is

  -- The numbers are of 16 bits.
  abbrev pub InWord : List ℕ → Type 0
  InWord [] = Unit
  InWord (i ∷ is) = (i < 2 ^ 16) × InWord is

pub seqs-InWord : (q : PacketRecvQueue) (r : ℕ → ℕ) (n i : ℕ) → i < 2 ^ 16 → InWord q r (seqs i n)
seqs-InWord q r zero i h = tt
seqs-InWord q r (suc n) i h = (h, seqs-InWord q r n (u16 (i + 1)) (omega arith))

module _ (q : PacketRecvQueue) (r : ℕ → ℕ)
    (resolves : (i : ℕ) → i < 2 ^ 16 → resolve_seq q i ≡ done (r i)) where
  missing_each :
      (is missing : List ℕ)
      → InWord q r is
      → for_each (missing_round q) is missing
        ≡ done (next (missing ++ filterb (λ i. not (has_packet q r i)) is))
  unfolding missing_round
  missing_each [] missing w = ap (λ t. done (next t)) (sym (append-nil missing))
  missing_each (i ∷ is) missing w = ground (
    arith,
    resolves i w.0,
    missing_each is missing w.1,
    missing_each is (missing ++ i ∷ []) w.1,
    append_assoc missing (i ∷ []) (filterb (λ i. not (has_packet q r i)) is),
  )

  size_each :
      (is : List ℕ) (size : ℕ)
      → InWord q r is
      → size < 2 ^ 32
      → for_each (size_round q) is size
        ≡ done (
            if all (has_packet q r) is
            then next (u32 (size + data_total q r is))
            else leave no_size)
  unfolding size_round
  size_each [] size w h = ground arith
  size_each (i ∷ is) size w h = elim (Option-cases (packet_at q r i)) [
    | inl e ↦ ground (arith, resolves i w.0)
    | inr (d, e) ↦ ground (
      arith,
      resolves i w.0,
      size_each is size w.1 h,
      size_each is (u32 (size + d.size)) w.1 (omega arith),
    )
  ]

  -- `find_missing_packets` returns, and appends the numbers of the range, in order, whose resolved
  -- number has no packet.
  pub find_missing_packets_lem :
      (start end : ℕ) (missing : List ℕ)
      → start < 2 ^ 16
      → end < 2 ^ 16
      → find_missing_packets q start end missing
        ≡ done (missing ++ filterb (λ i. not (has_packet q r i)) (range start end))
  unfolding find_missing_packets
  find_missing_packets_lem start end missing hs he = rw (
    for_seq-for_each _ start end missing hs he,
    missing_each (range start end) missing (seqs-InWord q r (sub16 end start) start hs),
  )

  -- `compute_range_size` returns the sum of the sizes of the data packets of the range, modulo
  -- 2 ^ 32, if no packet is missing, and 2 ^ 32 - 1 if one is.
  pub compute_range_size_lem :
      (start end : ℕ)
      → start < 2 ^ 16
      → end < 2 ^ 16
      → compute_range_size q start end
        ≡ done (
            if all (has_packet q r) (range start end)
            then u32 (data_total q r (range start end))
            else no_size)
  unfolding compute_range_size
  compute_range_size_lem start end hs he =
      rw
        (
          for_seq-for_each (size_round q) start end 0 hs he,
          size_each (range start end) 0 (seqs-InWord q r (sub16 end start) start hs) (omega arith),
        )
        (elim (Bool-cases (all (has_packet q r) (range start end))) [
          | inl e ↦ rw e (ground arith)
          | inr e ↦ rw e
        ])
