-- ===== src/PacketQueue/Send/Keep.antt =====
-- What retransmission and acknowledgement do to the packets kept.
use udp_stuff.Base.{
  ℕ, ◌^◌, ◌<◌, ◌≡◌, refl, ap, ◌∙◌, arith, Bool, none, some, List, [], ◌∷◌, Bytes, ◌==◌,
  if◌then◌else◌, done, >>=-eq-done, sub16, find, emplace, find-emplace, assign, find-assign,
}
use udp_stuff.PacketQueue.Descr.{PacketDescr, empty, make}
use udp_stuff.PacketQueue.Loop.{next, for_each, range, in_range, for_seq-for_each}
use udp_stuff.PacketQueue.Recv.Window.{member, member-seqs, find-erase_found}
use udp_stuff.PacketQueue.Send.{
  PacketSendQueue, next_seq, clear_one, clear_range, push_packet, move_packet_up,
}

-- Retransmission of a packet takes a new number, which holds the packet; the old number keeps a
-- shell of size 0, and the packets under other numbers are as before. The new number was free.
pub move_packet_up_lem :
    (q : PacketSendQueue) (seq : ℕ) (d : PacketDescr)
    → find seq q.packets ≡ some d
    → find (next_seq q) q.packets ≡ none
    → ((move_packet_up q seq).end_seq ≡ next_seq q)
      × ((k : ℕ)
          → find k (move_packet_up q seq).packets ≡ (
              if k == next_seq q
              then some d
              else if k == seq
              then some empty
              else find k q.packets))
unfolding move_packet_up
move_packet_up_lem q seq d held free = (
  refl,
  λ k. ground (
    arith,
    find-emplace (next_seq q) k d (assign seq empty q.packets),
    find-assign seq k empty q.packets,
    find-assign seq (next_seq q) empty q.packets,
  ),
)

-- A packet that is not in the queue is not sent again, but its new number is used up.
pub move_packet_up_absent :
    (q : PacketSendQueue) (seq : ℕ)
    → find seq q.packets ≡ none
    → move_packet_up q seq ≡ record q { end_seq = next_seq q }
unfolding move_packet_up
move_packet_up_absent q seq e = ground arith

-- After number 2 ^ 16 - 1 the next packet gets number 0.
pub push_packet_wraps :
    (malloc : ℕ → Bool) (q q' : PacketSendQueue) (size : ℕ) (src : Bytes)
    → q.end_seq ≡ 0xffff
    → find 0 q.packets ≡ none
    → push_packet malloc q size src ≡ done q'
    → (q'.end_seq ≡ 0)
      × ((d : PacketDescr) × (make malloc size src ≡ done d) × (find 0 q'.packets ≡ some d))
unfolding push_packet
push_packet_wraps malloc q q' size src e free h =
    let (d, made, built) =
      >>=-eq-done (make malloc size src)
        (λ d. done (record q { end_seq = next_seq q; packets = emplace (next_seq q) d q.packets }))
        h in
    (ground arith, (d, made, ground (arith, find-emplace (next_seq q) 0 d q.packets)))

abbrev clear_each : List ℕ → PacketSendQueue → PacketSendQueue
clear_each [] q = q
clear_each (i ∷ is) q = clear_each is (clear_one i q)

clear_each_lem :
    (is : List ℕ) (q : PacketSendQueue)
    → for_each {R = PacketSendQueue} (λ i t. done (next (clear_one i t))) is q
      ≡ done (next (clear_each is q))
clear_each_lem [] q = refl
clear_each_lem (i ∷ is) q = clear_each_lem is (clear_one i q)

find-clear_each :
    (is : List ℕ) (q : PacketSendQueue) (k : ℕ)
    → find k (clear_each is q).packets ≡ (if member k is then none else find k q.packets)
find-clear_each [] q k = refl
find-clear_each (i ∷ is) q k =
    ground (arith, find-clear_each is (clear_one i q) k, find-erase_found i k q.packets)

-- `clear_range` returns, and the sender keeps the packets outside the range and no other.
pub clear_range_kept :
    (q : PacketSendQueue) (start end : ℕ)
    → start < 2 ^ 16
    → end < 2 ^ 16
    → (q' : PacketSendQueue) × (clear_range q start end ≡ done q')
      × ((k : ℕ)
          → k < 2 ^ 16
          → find k q'.packets ≡ (if in_range start end k then none else find k q.packets))
unfolding clear_range
clear_range_kept q start end hs he =
    let is = range start end in
    (
      clear_each is q,
      rw (for_seq-for_each _ start end q hs he, clear_each_lem is q),
      λ k hk.
          find-clear_each is q k
          ∙ ap (λ b. if b then none else find k q.packets)
              (member-seqs (sub16 end start) start k hs hk (omega arith)),
    )
