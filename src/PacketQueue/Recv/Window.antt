-- ===== src/PacketQueue/Recv/Window.antt =====
-- `clear_range` and `move_seq` drop the packets of a range, and keep the others.
use udp_stuff.Base.{
  ℕ, zero, suc, ◌+◌, ◌^◌, ◌<◌, ◌≤◌, ◌≡◌, refl, arith, Bool, false, ◌||◌, none, List, [], ◌∷◌, done,
  find, find-erase, ap, ◌∙◌, u16, sub16, ltb, ◌==◌, if◌then◌else◌,
}
use udp_stuff.PacketQueue.Loop.{next, for_each, seqs, range, in_range, for_seq-for_each}
use udp_stuff.PacketQueue.Recv.{PacketRecvQueue, erase_found, clear_one, clear_range, move_seq}

module _ {ℓ} {V : Type ℓ} where
  pub find-erase_found :
      (k j : ℕ) (m : List (ℕ × V)) → find j (erase_found k m) ≡ (if k == j then none else find j m)
  find-erase_found k j m = ground (arith, find-erase k j m)

-- Is `k` among these numbers?
abbrev pub member : ℕ → List ℕ → Bool
member k [] = false
member k (i ∷ is) = i == k || member k is

abbrev pub clear_each : List ℕ → PacketRecvQueue → PacketRecvQueue
clear_each [] q = q
clear_each (i ∷ is) q = clear_each is (clear_one i q)

clear_each_lem :
    (is : List ℕ) (q : PacketRecvQueue)
    → for_each {R = PacketRecvQueue} (λ i t. done (next (clear_one i t))) is q
      ≡ done (next (clear_each is q))
clear_each_lem [] q = refl
clear_each_lem (i ∷ is) q = clear_each_lem is (clear_one i q)

-- What `clear_each` leaves alone, and what it drops.
record Cleared (is : List ℕ) (q q' : PacketRecvQueue) : Type 0 where
  start_kept : q'.start_seq ≡ q.start_seq
  end_kept : q'.end_seq ≡ q.end_seq
  packets_of : (k : ℕ) → find k q'.packets ≡ (if member k is then none else find k q.packets)
  mapping_of :
      (k : ℕ) → find k q'.seq_mapping ≡ (if member k is then none else find k q.seq_mapping)

clear_each-Cleared : (is : List ℕ) (q : PacketRecvQueue) → Cleared is q (clear_each is q)
clear_each-Cleared [] q = record {
  start_kept = refl;
  end_kept = refl;
  packets_of = λ k. refl;
  mapping_of = λ k. refl;
}
clear_each-Cleared (i ∷ is) q =
    let c = clear_each-Cleared is (clear_one i q) in
    record {
      start_kept = c.start_kept;
      end_kept = c.end_kept;
      packets_of = λ k. ground (arith, c.packets_of k, find-erase_found i k q.packets);
      mapping_of = λ k. ground (arith, c.mapping_of k, find-erase_found i k q.seq_mapping);
    }

pub member-seqs :
    (n i k : ℕ) → i < 2 ^ 16 → k < 2 ^ 16 → n ≤ 2 ^ 16 → member k (seqs i n) ≡ ltb (sub16 k i) n
member-seqs zero i k hi hk hn = ground arith
member-seqs (suc n) i k hi hk hn =
    ground (arith, member-seqs n (u16 (i + 1)) k (omega arith) hk (omega arith))

-- `clear_range` returns. Then the packets and the mapped numbers from `start` on and before `end`
-- are gone, the way round 2 ^ 16 included, and every other one is kept.
pub clear_range_lem :
    (q : PacketRecvQueue) (start end : ℕ)
    → start < 2 ^ 16
    → end < 2 ^ 16
    → (q' : PacketRecvQueue) × (clear_range q start end ≡ done q')
      × (q'.start_seq ≡ q.start_seq)
      × ((k : ℕ)
          → k < 2 ^ 16
          → (find k q'.packets ≡ (if in_range start end k then none else find k q.packets))
            × (find k q'.seq_mapping
                ≡ (if in_range start end k then none else find k q.seq_mapping)))
unfolding clear_range
clear_range_lem q start end hs he =
    let is = range start end in
    let c = clear_each-Cleared is q in
    let m =
      λ (k : ℕ) (hk : k < 2 ^ 16). member-seqs (sub16 end start) start k hs hk (omega arith) in
    (
      clear_each is q,
      rw (for_seq-for_each _ start end q hs he, clear_each_lem is q),
      c.start_kept,
      λ k hk. (
        c.packets_of k ∙ ap (λ b. if b then none else find k q.packets) (m k hk),
        c.mapping_of k ∙ ap (λ b. if b then none else find k q.seq_mapping) (m k hk),
      ),
    )

-- `move_seq` makes `new_seq` the first number of the queue, and drops what lay before it.
pub move_seq_lem :
    (q : PacketRecvQueue) (new_seq : ℕ)
    → q.start_seq < 2 ^ 16
    → new_seq < 2 ^ 16
    → (q' : PacketRecvQueue) × (move_seq q new_seq ≡ done q')
      × (q'.start_seq ≡ new_seq)
      × ((k : ℕ)
          → k < 2 ^ 16
          → find k q'.packets ≡ (if in_range q.start_seq new_seq k then none else find k q.packets))
unfolding move_seq
move_seq_lem q new_seq hs hn =
    let (q', run, kept, gone) = clear_range_lem q q.start_seq new_seq hs hn in
    (record q' { start_seq = new_seq }, rw run refl, refl, λ k hk. (gone k hk).0)
