-- ===== src/PacketQueue/Recv/Copy.antt =====
-- `copy_data` writes the payload of a range into the caller's memory.
use udp_stuff.Base.{
  ℕ, ◌+◌, ◌^◌, ◌<◌, ◌≤◌, ◌≡◌, refl, arith, true, false, Option, none, some, List, [], ◌∷◌, ◌++◌,
  append-nil, append_assoc, done, throws, runtime_error, find, Option-cases, Bool-cases, inl, inr,
  ap, sym, ◌∙◌, sub16, if◌then◌else◌, Bytes, length, drop, length-append, take-append, drop-append,
  take-length, length-drop, drop-drop,
}
use udp_stuff.PacketQueue.Descr.{PacketDescr, is_data, read_bytes}
use udp_stuff.PacketQueue.Loop.{next, for_each, range, for_seq-for_each}
use udp_stuff.PacketQueue.Recv.{
  PacketRecvQueue, resolve_seq, copy_round, copy_data, write_bytes, block_of,
}
use udp_stuff.PacketQueue.Recv.Missing.{all, packet_at, has_packet, data_total, InWord, seqs-InWord}

-- The bytes that a packet adds to the data.
abbrev pub payload_of : Option PacketDescr → Bytes
payload_of none = []
payload_of (some d) = if is_data d then block_of d else []

module _ (q : PacketRecvQueue) (r : ℕ → ℕ) where
  abbrev pub payload : List ℕ → Bytes
  payload [] = []
  payload (i ∷ is) = payload_of (packet_at q r i) ++ payload is

-- Every packet of the queue owns as many bytes as its size says.
pub record AllFull (q : PacketRecvQueue) : Type 0 where
  pub full : (k : ℕ) (d : PacketDescr) → find k q.packets ≡ some d → length (block_of d) ≡ d.size

-- A write just behind `pre` puts `b` in the place of as many bytes of `rest`.
write_bytes_behind :
    (pre rest b : Bytes)
    → length b ≤ length rest
    → write_bytes (pre ++ rest) (length pre) b ≡ done ((pre ++ b) ++ drop (length b) rest)
write_bytes_behind pre rest b h = ground (
  arith,
  length-append pre rest,
  take-append pre rest,
  drop-append pre rest,
  drop-drop (length pre) (length b) (pre ++ rest),
  append_assoc pre b (drop (length b) rest),
)

-- `b` behind `pre`, in the place of as many bytes of `rest`; and the offset behind it.
abbrev behind : Bytes → Bytes → Bytes → Bytes × ℕ
behind pre rest b = ((pre ++ b) ++ drop (length b) rest, length pre + length b)

behind_twice :
    (pre rest b p : Bytes) → behind (pre ++ b) (drop (length b) rest) p ≡ behind pre rest (b ++ p)
behind_twice pre rest b p = ground (
  arith,
  append_assoc pre b p,
  drop-drop (length b) (length p) rest,
  length-append pre b,
  length-append b p,
)

read_bytes_whole : (n : ℕ) (b : Bytes) → length b ≡ n → read_bytes n b ≡ done b
read_bytes_whole n b h = ground (arith, take-length n b)

module _ (q : PacketRecvQueue) (r : ℕ → ℕ)
    (resolves : (i : ℕ) → i < 2 ^ 16 → resolve_seq q i ≡ done (r i)) (f : AllFull q) where
  copy_round_data :
      (i : ℕ) (d : PacketDescr) (pre rest : Bytes)
      → i < 2 ^ 16
      → packet_at q r i ≡ some d
      → is_data d ≡ true
      → length (block_of d) ≤ length rest
      → length pre + length (block_of d) < 2 ^ 32
      → copy_round q i (pre ++ rest, length pre)
        ≡ done (
            next
              ((pre ++ block_of d) ++ drop (length (block_of d)) rest, length (pre ++ block_of d)))
  unfolding copy_round
  copy_round_data i d pre rest hi e even room small =
      let own = f.full (r i) d e in
      ground (
        arith,
        resolves i hi,
        read_bytes_whole d.size (block_of d) own,
        write_bytes_behind pre rest (block_of d) room,
        length-append pre (block_of d),
      )

  copy_round_control :
      (i : ℕ) (d : PacketDescr) (s : Bytes × ℕ)
      → i < 2 ^ 16
      → packet_at q r i ≡ some d
      → is_data d ≡ false
      → copy_round q i s ≡ done (next s)
  unfolding copy_round
  copy_round_control i d s hi e odd = ground (arith, resolves i hi)

  copy_round_missing :
      (i : ℕ) (s : Bytes × ℕ)
      → i < 2 ^ 16
      → packet_at q r i ≡ none
      → copy_round q i s ≡ throws runtime_error
  unfolding copy_round
  copy_round_missing i s hi e = ground (arith, resolves i hi)

  length-payload :
      (is : List ℕ) → all (has_packet q r) is ≡ true → length (payload q r is) ≡ data_total q r is
  length-payload [] h = refl
  length-payload (i ∷ is) h = elim (Option-cases (packet_at q r i)) [
    | inl e ↦ absurd (ground arith)
    | inr (d, e) ↦ ground (
      arith,
      length-append (payload_of (packet_at q r i)) (payload q r is),
      length-payload is (ground arith),
      f.full (r i) d e,
    )
  ]

  copy_each :
      (is : List ℕ) (pre rest : Bytes)
      → InWord q r is
      → all (has_packet q r) is ≡ true
      → length (payload q r is) ≤ length rest
      → length pre + length (payload q r is) < 2 ^ 32
      → for_each (copy_round q) is (pre ++ rest, length pre)
        ≡ done (next (behind pre rest (payload q r is)))
  copy_each [] pre rest w h room small = ground (arith, append-nil pre)
  copy_each (i ∷ is) pre rest w h room small = elim (Option-cases (packet_at q r i)) [
    | inl e ↦ absurd (ground arith)
    | inr (d, e) ↦ elim (Bool-cases (is_data d)) [
      | inl even ↦
          let b = block_of d in
          let p = payload q r is in
          let whole : payload q r (i ∷ is) ≡ b ++ p = ground arith in
          let sizes = length-append b p in
          let dropped = length-drop (length b) rest in
          let size = ap length whole in
          rw (copy_round_data i d pre rest w.0 e even (omega arith) (omega arith)) (
            copy_each is (pre ++ b) (drop (length b) rest) w.1 (ground arith) (omega arith)
              (omega (arith, length-append pre b))
            ∙ ap (λ t. done (next t))
                (behind_twice pre rest b p ∙ ap (behind pre rest) (sym whole)))
      | inr odd ↦
          let whole : payload q r (i ∷ is) ≡ payload q r is = ground arith in
          let size = ap length whole in
          rw (copy_round_control i d (pre ++ rest, length pre) w.0 e odd) (
            copy_each is pre rest w.1 (ground arith) (omega arith) (omega arith)
            ∙ ap (λ t. done (next (behind pre rest t))) (sym whole))
    ]
  ]

  copy_each_missing :
      (is : List ℕ) (pre rest : Bytes)
      → InWord q r is
      → all (has_packet q r) is ≡ false
      → length (payload q r is) ≤ length rest
      → length pre + length (payload q r is) < 2 ^ 32
      → for_each (copy_round q) is (pre ++ rest, length pre) ≡ throws runtime_error
  copy_each_missing [] pre rest w h room small = cc
  copy_each_missing (i ∷ is) pre rest w h room small = elim (Option-cases (packet_at q r i)) [
    | inl e ↦ rw (copy_round_missing i (pre ++ rest, length pre) w.0 e)
    | inr (d, e) ↦ elim (Bool-cases (is_data d)) [
      | inl even ↦
          let b = block_of d in
          let p = payload q r is in
          let whole : payload q r (i ∷ is) ≡ b ++ p = ground arith in
          let sizes = length-append b p in
          let dropped = length-drop (length b) rest in
          let size = ap length whole in
          rw (copy_round_data i d pre rest w.0 e even (omega arith) (omega arith)) (
            copy_each_missing is (pre ++ b) (drop (length b) rest) w.1 (ground arith) (omega arith)
              (omega (arith, length-append pre b)))
      | inr odd ↦
          let whole : payload q r (i ∷ is) ≡ payload q r is = ground arith in
          let size = ap length whole in
          rw (copy_round_control i d (pre ++ rest, length pre) w.0 e odd)
            (copy_each_missing is pre rest w.1 (ground arith) (omega arith) (omega arith))
    ]
  ]

  -- If the memory has room for the payload of the range, below 2 ^ 32 bytes of it, `copy_data`
  -- writes exactly that payload at the start of the memory and leaves the rest of the memory
  -- alone, when no packet is missing; when one is missing it throws.
  pub copy_data_lem :
      (mem : Bytes) (start end : ℕ)
      → start < 2 ^ 16
      → end < 2 ^ 16
      → length (payload q r (range start end)) ≤ length mem
      → length (payload q r (range start end)) < 2 ^ 32
      → copy_data q mem start end ≡ (
          if all (has_packet q r) (range start end)
          then done
              (payload q r (range start end) ++ drop (length (payload q r (range start end))) mem)
          else throws runtime_error)
  unfolding copy_data
  copy_data_lem mem start end hs he room small =
      let w = seqs-InWord q r (sub16 end start) start hs in
      let is = range start end in
      rw (for_seq-for_each (copy_round q) start end (mem, 0) hs he)
        (elim (Bool-cases (all (has_packet q r) is)) [
          | inl e ↦ rw (e, copy_each is [] mem w e room (omega arith))
          | inr e ↦ rw (e, copy_each_missing is [] mem w e room (omega arith))
        ])
