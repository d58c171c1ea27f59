-- ===== src/PacketSequence/Tiling.antt =====
-- The packets of a sequence tile its data.
use udp_stuff.Base.{
  ◌∙◌, ℕ, ◌+◌, ◌-◌, ◌*◌, ◌/◌, ◌%◌, ◌^◌, ◌≤◌, ◌<◌, ◌≡◌, arith, leb, if◌then◌else◌, done, throws,
  out_of_range, min, dec_lt, ℕ_discrete,
}
use udp_stuff.PacketSequence.{
  PacketSequence, PacketLoc, packet_start_pos, packet_loc, packets_count,
}

-- The `k`-th number of a sequence.
abbrev pub nth_seq : ℕ → PacketSequence → ℕ → ℕ
nth_seq bits p k = (p.seq_start + k) % 2 ^ bits

-- A wrapped sum less one of its terms is the other.
word_diff : (m a k : ℕ) → a < m → k < m → ((a + k) % m + m - a) % m ≡ k
word_diff m a k ha hk = elim (dec_lt (a + k) m) [
  | yes small ↦
      let e : (a + k) % m ≡ a + k = grind arith in
      let f : a + k + m - a ≡ k + m = omega arith in rw (e, f) (grind arith)
  | no large ↦
      let e : (a + k) % m ≡ a + k - m = grind arith in
      let f : a + k - m + m - a ≡ k = omega arith in rw (e, f) (grind arith)
]

packet_start_pos-nth :
    (bits : ℕ) (p : PacketSequence) (k : ℕ)
    → p.seq_start < 2 ^ bits
    → k < 2 ^ bits
    → 2 ^ bits * p.mtu ≤ 2 ^ 64
    → 0 < p.mtu
    → packet_start_pos bits p (nth_seq bits p k) ≡ k * p.mtu
unfolding packet_start_pos
packet_start_pos-nth bits p k hs hk few pos =
    let below : k * p.mtu < 2 ^ bits * p.mtu = grind arith in
    rw (word_diff (2 ^ bits) p.seq_start k hs hk) (omega arith)

-- The number of packets, if `mtu` is not 0, is the least that covers the data.
pub packets_count_lem :
    (p : PacketSequence)
    → 0 < p.mtu
    → (n : ℕ) × (packets_count p ≡ done n)
      × (p.data_size ≤ n * p.mtu)
      × ((k : ℕ) → k < n → k * p.mtu < p.data_size)
unfolding packets_count
packets_count_lem p pos = elim (ℕ_discrete (p.data_size % p.mtu) 0) [
  | yes exact ↦ (p.data_size / p.mtu, ground arith, omega arith, λ k h. grind arith)
  | no over ↦ (p.data_size / p.mtu + 1, ground arith, omega arith, λ k h. grind arith)
]

-- For a sequence of numbers that does not wrap in `size_t`, whose data has numbers enough.
pub record IsNumbered (bits : ℕ) (p : PacketSequence) : Type 0 where
  pub starts : p.seq_start < 2 ^ bits
  pub addressed : 2 ^ bits * p.mtu ≤ 2 ^ 64
  pub covered : p.data_size ≤ 2 ^ bits * p.mtu
  pub positive : 0 < p.mtu

packet_loc-nth :
    (bits : ℕ) (p : PacketSequence) (k : ℕ)
    → IsNumbered bits p
    → k < 2 ^ bits
    → packet_loc bits p (nth_seq bits p k) ≡ (
        if leb p.data_size (k * p.mtu)
        then throws out_of_range
        else done (record { offset = k * p.mtu; size = min (p.data_size - k * p.mtu) p.mtu }))
unfolding packet_loc
packet_loc-nth bits p k v hk = rw (packet_start_pos-nth bits p k v.starts hk v.addressed v.positive)

-- A place holds the byte at `x`, and lies in the data.
pub record Covers (p : PacketSequence) (x : ℕ) (l : PacketLoc) : Type 0 where
  pub from : l.offset ≤ x
  pub to : x < l.offset + l.size
  pub inside : l.offset + l.size ≤ p.data_size

-- The byte at `x` lies in the packet number `x / mtu` of the sequence, whose place lies in the
-- data, and in no other packet.
pub packet_loc-Covers :
    (bits : ℕ) (p : PacketSequence) (x : ℕ)
    → IsNumbered bits p
    → x < p.data_size
    → ((l : PacketLoc) × (packet_loc bits p (nth_seq bits p (x / p.mtu)) ≡ done l) × Covers p x l)
      × ((k : ℕ) (l : PacketLoc)
          → k < 2 ^ bits
          → packet_loc bits p (nth_seq bits p k) ≡ done l
          → Covers p x l
          → k ≡ x / p.mtu)
packet_loc-Covers bits p x v hx = (
  (
    record { offset = x / p.mtu * p.mtu; size = min (p.data_size - x / p.mtu * p.mtu) p.mtu },
    packet_loc-nth bits p (x / p.mtu) v in_word ∙ ground arith,
    omega (arith, v.positive),
  ),
  λ k l hk at c. unique k l hk (ground (arith, packet_loc-nth bits p k v hk)) c,
)
  where
    in_word : x / p.mtu < 2 ^ bits
    in_word = grind (arith, v.covered, v.positive)

    unique :
        (k : ℕ) (l : PacketLoc)
        → k < 2 ^ bits
        → (l.offset ≡ k * p.mtu) × (l.size ≤ p.mtu)
        → Covers p x l
        → k ≡ x / p.mtu
    unique k l hk e c = grind (arith, v.positive)
