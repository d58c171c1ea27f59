-- ===== src/PacketQueue/Send/Push.antt =====
-- `push_buffer` cuts a buffer into packets of at most `mtu` bytes.
use udp_stuff.Base.{
  ℕ, zero, suc, ◌+◌, ◌-◌, ◌*◌, ◌%◌, ◌^◌, ◌<◌, ◌≤◌, ◌≡◌, refl, sym, ap, ◌∙◌, arith, Bool, true,
  false, ◌==◌, Option-cases, inl, inr, Option, none, some, List, [], ◌∷◌, ◌++◌, length, take, drop,
  Bytes, ltb, if◌then◌else◌, done, hangs, u16, u32, sub16, sub32, find, emplace, find-emplace,
  length-take, length-drop, drop-drop, get_elem?, take-append-drop, dec_lt, ℕ_discrete,
  get_elem?-past, take-length,
}
use udp_stuff.PacketQueue.Descr.{PacketDescr, empty, make}
use udp_stuff.PacketQueue.Send.{PacketSendQueue, next_seq, push_packet, push_from, push_buffer}

-- The buffer in pieces of `mtu` bytes, the last one shorter.
abbrev pub chunks : ℕ → ℕ → Bytes → List Bytes
chunks zero mtu b = []
chunks (suc fuel) mtu [] = []
chunks (suc fuel) mtu (x ∷ xs) = take mtu (x ∷ xs) ∷ chunks fuel mtu (drop mtu (x ∷ xs))

chunks-cons :
    (fuel mtu : ℕ) (b : Bytes)
    → 0 < length b
    → chunks (suc fuel) mtu b ≡ take mtu b ∷ chunks fuel mtu (drop mtu b)
chunks-cons fuel mtu [] h = absurd (omega arith)
chunks-cons fuel mtu (x ∷ xs) h = refl

chunks-nil : (fuel mtu : ℕ) (b : Bytes) → length b ≡ 0 → chunks fuel mtu b ≡ []
chunks-nil zero mtu [] h = refl
chunks-nil (suc fuel) mtu [] h = refl
chunks-nil fuel mtu (x ∷ xs) h = absurd (omega arith)

-- Past the end, one length is as good as another.
take-past : (m n : ℕ) (b : Bytes) → length b ≤ m → length b ≤ n → take m b ≡ take n b
take-past m n b hm hn = take-length m b hm ∙ sym (take-length n b hn)

drop-past : (m n : ℕ) (b : Bytes) → length b ≤ m → length b ≤ n → drop m b ≡ drop n b
drop-past zero zero b hm hn = refl
drop-past zero (suc n) [] hm hn = refl
drop-past (suc m) zero [] hm hn = refl
drop-past (suc m) (suc n) [] hm hn = refl
drop-past zero n (x ∷ xs) hm hn = absurd (omega arith)
drop-past (suc m) zero (x ∷ xs) hm hn = absurd (omega arith)
drop-past (suc m) (suc n) (x ∷ xs) hm hn = drop-past m n xs (omega arith) (omega arith)

abbrev pub join : List Bytes → Bytes
join [] = []
join (c ∷ cs) = c ++ join cs

pub join-chunks :
    (fuel mtu : ℕ) (b : Bytes) → 0 < mtu → length b ≤ fuel → join (chunks fuel mtu b) ≡ b
join-chunks zero mtu [] hm h = refl
join-chunks zero mtu (x ∷ xs) hm h = absurd (omega arith)
join-chunks (suc fuel) mtu [] hm h = refl
join-chunks (suc fuel) mtu (x ∷ xs) hm h = ground (
  arith,
  join-chunks fuel mtu (drop mtu (x ∷ xs)) hm (omega (arith, length-drop mtu (x ∷ xs))),
  take-append-drop mtu (x ∷ xs),
)

abbrev pub packet_of : Bytes → PacketDescr
packet_of b = record { size = length b; block = some b }

-- `b` as the next packet.
abbrev pub store : PacketSendQueue → Bytes → PacketSendQueue
store q b = record q {
  end_seq = next_seq q;
  packets = emplace (next_seq q) (packet_of b) q.packets;
}

abbrev pub store_all : PacketSendQueue → List Bytes → PacketSendQueue
store_all q [] = q
store_all q (b ∷ bs) = store_all (store q b) bs

module _ (malloc : ℕ → Bool) (fits : (n : ℕ) → malloc n ≡ true) where
  push_packet-store :
      (q : PacketSendQueue) (n : ℕ) (src : Bytes)
      → 0 < n
      → n ≤ length src
      → push_packet malloc q n src ≡ done (store q (take n src))
  unfolding push_packet make
  push_packet-store q n src pos h = ground (arith, fits n, length-take n src)

  -- A round of the loop, at a packet size `n`.
  round :
      (fuel : ℕ) (q : PacketSendQueue) (mem : Bytes) (offset n : ℕ)
      → n ≡ (if ltb q.mtu (sub32 (length mem) offset) then q.mtu else sub32 (length mem) offset)
      → 0 < n
      → length mem < 2 ^ 32
      → offset < length mem
      → n ≤ length mem - offset
      → push_from malloc (suc fuel) q mem (length mem) offset
        ≡ push_from malloc fuel (store q (take n (drop offset mem))) mem (length mem) (offset + n)
  unfolding push_from
  round fuel q mem offset n size pos small more room =
      let kept = length-drop offset mem in
      let next : u32 (offset + n) ≡ offset + n = omega arith in
      let stored = push_packet-store q n (drop offset mem) pos (omega arith) in
      ground (arith, stored)

  push_from_end :
      (fuel : ℕ) (q : PacketSendQueue) (mem : Bytes) (offset : ℕ)
      → length mem ≤ offset
      → push_from malloc (suc fuel) q mem (length mem) offset ≡ done q
  unfolding push_from
  push_from_end fuel q mem offset over = ground arith

  chunks_of_round :
      (fuel mtu n : ℕ) (b : Bytes)
      → 0 < length b
      → n ≡ (if ltb mtu (length b) then mtu else length b)
      → chunks (suc fuel) mtu b ≡ take n b ∷ chunks fuel mtu (drop n b)
  chunks_of_round fuel mtu n b pos size =
      ground (arith, chunks-cons fuel mtu b pos, take-past mtu n b, drop-past mtu n b)

  push_from-store_all :
      (fuel : ℕ) (q : PacketSendQueue) (mem : Bytes) (offset : ℕ)
      → 0 < q.mtu
      → length mem < 2 ^ 32
      → offset ≤ length mem
      → length mem - offset < fuel
      → push_from malloc fuel q mem (length mem) offset
        ≡ done (store_all q (chunks fuel q.mtu (drop offset mem)))
  push_from-store_all zero q mem offset hm small within enough = absurd (omega arith)
  push_from-store_all (suc fuel) q mem offset hm small within enough =
      elim (dec_lt offset (length mem)) [
        | yes more ↦
            let n = if ltb q.mtu (length mem - offset) then q.mtu else length mem - offset in
            let left : sub32 (length mem) offset ≡ length mem - offset = omega arith in
            let kept = length-drop offset mem in
            let pos : 0 < n = ground arith in
            let room : n ≤ length mem - offset = ground arith in
            round fuel q mem offset n (rw left) pos small more room
            ∙ push_from-store_all fuel (store q (take n (drop offset mem))) mem (offset + n) hm
                small (omega arith) (omega arith)
            ∙ ap (λ cs. done (store_all q cs))
                (ap (λ b. take n (drop offset mem) ∷ chunks fuel q.mtu b)
                    (sym (drop-drop offset n mem))
                  ∙ sym (chunks_of_round fuel q.mtu n (drop offset mem) (omega arith) (rw kept)))
        | no over ↦
            let kept = length-drop offset mem in
            push_from_end fuel q mem offset (omega arith)
            ∙ ap (λ cs. done (store_all q cs))
                (sym (chunks-nil (suc fuel) q.mtu (drop offset mem) (omega arith)))
      ]

  -- `push_buffer` returns, and appends the pieces of the buffer as packets, in order, if `mtu` is
  -- not 0, the buffer is below 2 ^ 32 bytes and memory does not run out.
  pub push_buffer-store_all :
      (q : PacketSendQueue) (mem : Bytes)
      → 0 < q.mtu
      → length mem < 2 ^ 32
      → push_buffer malloc q mem (length mem)
        ≡ done (store_all q (chunks (suc (length mem)) q.mtu mem))
  unfolding push_buffer
  push_buffer-store_all q mem hm small =
      push_from-store_all (suc (length mem)) q mem 0 hm small (omega arith) (omega arith)

-- With an `mtu` of 0 no round makes progress: `push_buffer` comes to no end at any fuel.
pub push_from-hangs :
    (malloc : ℕ → Bool) (fuel : ℕ) (q : PacketSendQueue) (mem : Bytes) (size offset : ℕ)
    → q.mtu ≡ 0
    → size < 2 ^ 32
    → offset < size
    → push_from malloc fuel q mem size offset ≡ hangs
unfolding push_from push_packet make
push_from-hangs malloc zero q mem size offset e small more = refl
push_from-hangs malloc (suc fuel) q mem size offset e small more = ground (
  arith,
  push_from-hangs malloc fuel
      (record q { end_seq = next_seq q; packets = emplace (next_seq q) empty q.packets }) mem size
      offset e small more,
)

-- The number of the packets, and their sizes.
pub length-chunks :
    (fuel mtu n : ℕ) (b : Bytes) → 0 < mtu → length b ≤ n * mtu → length (chunks fuel mtu b) ≤ n
length-chunks zero mtu n b hm h = omega arith
length-chunks (suc fuel) mtu n [] hm h = omega arith
length-chunks (suc fuel) mtu zero (x ∷ xs) hm h = absurd (omega arith)
length-chunks (suc fuel) mtu (suc n) (x ∷ xs) hm h =
    let kept = length-drop mtu (x ∷ xs) in
    omega (arith, length-chunks fuel mtu n (drop mtu (x ∷ xs)) hm (omega arith))

abbrev pub AllEven : List Bytes → Type 0
AllEven [] = Unit
AllEven (b ∷ bs) = (length b % 2 ≡ 0) × AllEven bs

pub chunks-AllEven :
    (fuel mtu : ℕ) (b : Bytes) → mtu % 2 ≡ 0 → length b % 2 ≡ 0 → AllEven (chunks fuel mtu b)
chunks-AllEven zero mtu b hm h = tt
chunks-AllEven (suc fuel) mtu [] hm h = tt
chunks-AllEven (suc fuel) mtu (x ∷ xs) hm h = (
  omega (arith, length-take mtu (x ∷ xs)),
  chunks-AllEven fuel mtu (drop mtu (x ∷ xs)) hm (omega (arith, length-drop mtu (x ∷ xs))),
)

-- What lies under a number: the packet that was there, or else the piece that has the number.
abbrev pub kept_or : Option PacketDescr → Option Bytes → Option PacketDescr
kept_or (some d) piece = some d
kept_or none (some b) = some (packet_of b)
kept_or none none = none

-- The pieces lie under the numbers behind `end_seq`, in order; a number that was taken keeps its packet.
pub find-store_all :
    (cs : List Bytes) (q : PacketSendQueue) (k : ℕ)
    → k < 2 ^ 16
    → length cs < 2 ^ 16
    → find k (store_all q cs).packets
      ≡ kept_or (find k q.packets) (get_elem? cs (sub16 k (next_seq q)))
find-store_all [] q k hk few = elim (Option-cases (find k q.packets)) [
  | inl free ↦ rw free refl
  | inr (d, taken) ↦ rw taken refl
]
find-store_all (b ∷ bs) q k hk few =
    let there = find-emplace (next_seq q) k (packet_of b) q.packets in
    find-store_all bs (store q b) k hk (omega arith) ∙ elim (ℕ_discrete k (next_seq q)) [
      | yes here ↦
          let first : sub16 k (next_seq q) ≡ 0 = omega arith in
          let past = get_elem?-past bs (sub16 k (u16 (next_seq q + 1))) (omega arith) in
          let same : (next_seq q == k) ≡ true = ground arith in
          elim (Option-cases (find k q.packets)) [
            | inl free ↦ rw (there, same, free, first) refl
            | inr (d, taken) ↦ rw (there, same, taken) refl
          ]
      | no other ↦
          let rest : sub16 k (next_seq q) ≡ suc (sub16 k (u16 (next_seq q + 1))) = omega arith in
          let differ : (next_seq q == k) ≡ false = ground arith in rw (there, differ, rest) refl
    ]

pub end_seq-store_all :
    (cs : List Bytes) (q : PacketSendQueue)
    → q.end_seq < 2 ^ 16
    → (store_all q cs).end_seq ≡ u16 (q.end_seq + length cs)
end_seq-store_all [] q h = omega arith
end_seq-store_all (b ∷ bs) q h = omega (arith, end_seq-store_all bs (store q b) (omega arith))
