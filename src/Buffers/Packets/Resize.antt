-- ===== src/Buffers/Packets/Resize.antt =====
-- What a resize keeps.
use udp_stuff.Base.{
  ℕ, zero, suc, ◌-◌, ◌^◌, ◌≤◌, ◌<◌, ◌≡◌, refl, ap, arith, ◌∙◌, leb, if◌then◌else◌, false,
  Bool-cases, inl, inr, List, ◌++◌, some, take, drop, length, replicate, sub32, Outcome, done,
  fault, ◌>>=◌,
}
use udp_stuff.Buffers.Packets.{
  PacketBuffer, buffer_length, move_packets, move_old, moved, move_from, resize,
}
use udp_stuff.Buffers.Packets.Copying.{move_packets_lem, move_packets-fault}

module _ {P : Type 0} where
  -- A ring that stands in a block of its size.
  pub record IsRing (b : PacketBuffer P) (ps : List P) : Type 0 where
    pub block : b.packets ≡ some ps
    pub whole : length ps ≡ b.size
    pub start_in : b.start ≤ b.size
    pub end_in : b.end ≤ b.size
    pub small : b.size < 2 ^ 32

  -- The packets of a ring, from its start on.
  abbrev pub live : PacketBuffer P → List P → List P
  live b ps =
      if leb b.start b.end
      then take (b.end - b.start) (drop b.start ps)
      else drop b.start ps ++ take b.end ps

  length-replicate : (n : ℕ) (p : P) → length (replicate n p) ≡ n
  length-replicate zero p = refl
  length-replicate (suc n) p = let ih = length-replicate n p in omega arith

  resize-move_old :
      (p : P) (b : PacketBuffer P) (ps : List P) (new_size n : ℕ)
      → b.packets ≡ some ps
      → buffer_length b ≡ n
      → resize p b new_size
        ≡ (move_old b n ps (replicate new_size p) >>= λ qs. done (moved b new_size n qs))
  unfolding resize move_from
  resize-move_old p b ps new_size n block e =
      rw block
        (ap (λ k. move_old b k ps (replicate new_size p) >>= λ qs. done (moved b new_size k qs)) e)

  -- A ring whose packets go round cannot be made smaller, however few packets it has: the second loop runs to
  -- the old start in place of the old end, and writes behind the new block.
  pub resize-overflow :
      (p : P) (b : PacketBuffer P) (ps : List P) (new_size : ℕ)
      → IsRing b ps
      → b.end < b.start
      → new_size < b.size
      → resize p b new_size ≡ fault
  unfolding move_old
  resize-overflow p b ps new_size v order less =
      let block = v.block in
      let whole = v.whole in
      let at_start = v.start_in in
      let s = v.small in
      let wrapped : leb b.start b.end ≡ false = ground arith in
      let k : sub32 b.size b.start ≡ b.size - b.start = omega arith in
      let r = length-replicate new_size p in
      let n = buffer_length b in
      let loops : ℕ → Outcome (List P) = λ i.
        move_packets i ps b.start (replicate new_size p) 0 >>= λ xs.
        move_packets b.start ps 0 xs i in
      let refused : loops (b.size - b.start) ≡ fault → resize p b new_size ≡ fault = λ f.
        let old : move_old b n ps (replicate new_size p) ≡ fault = rw wrapped (ap loops k ∙ f) in
        resize-move_old p b ps new_size n block refl
        ∙ ap (λ r. r >>= λ xs. done (moved b new_size n xs)) old in
      elim (Bool-cases (leb (b.size - b.start) new_size)) [
        | inl fits ↦
            let fits' : b.size - b.start ≤ new_size = ground arith in
            let (first, m1, l1, t1) =
              move_packets_lem (b.size - b.start) ps b.start (replicate new_size p) 0 (omega arith)
                (omega arith) (omega arith) (omega arith) in
            let m2 =
              move_packets-fault b.start ps 0 first (b.size - b.start) (omega arith) (omega arith)
                (omega arith) (omega arith) (omega arith) in
            refused (ap (λ r. r >>= λ xs. move_packets b.start ps 0 xs (b.size - b.start)) m1 ∙ m2)
        | inr not_even ↦
            let long : new_size < b.size - b.start = ground arith in
            let m1 =
              move_packets-fault (b.size - b.start) ps b.start (replicate new_size p) 0
                (omega arith) (omega arith) (omega arith) (omega arith) (omega arith) in
            refused (ap (λ r. r >>= λ xs. move_packets b.start ps 0 xs (b.size - b.start)) m1)
      ]
