-- ===== src/PacketQueue/Transfer.antt =====
-- The two queues of packet_queue.h together: what `push_buffer` sends, `copy_data` puts together.
use udp_stuff.Base.{
  ℕ, suc, ◌+◌, ◌*◌, ◌%◌, ◌^◌, ◌<◌, ◌≤◌, ◌≡◌, refl, sym, ap, ap₂, ◌∙◌, arith, Bool, true, none, some,
  List, [], ◌∷◌, ◌++◌, length, drop, Bytes, done, u16, sub16, find, find-emplace, get_elem?,
}
use udp_stuff.PacketQueue.Descr.{PacketDescr}
use udp_stuff.PacketQueue.Loop.{seqs, range}
use udp_stuff.PacketQueue.Recv.{PacketRecvQueue, copy_data, block_of}
use udp_stuff.PacketQueue.Recv.Resolve.{resolve_seq_unmapped}
use udp_stuff.PacketQueue.Recv.Missing.{all, has_packet}
use udp_stuff.PacketQueue.Recv.Copy.{payload, AllFull, copy_data_lem}
use udp_stuff.PacketQueue.Send.{PacketSendQueue, next_seq, push_buffer, new_send_queue}
use udp_stuff.PacketQueue.Send.Push.{
  chunks, join, join-chunks, packet_of, store, store_all, push_buffer-store_all, length-chunks,
  AllEven, chunks-AllEven, find-store_all, end_seq-store_all, kept_or,
}

-- The queue holds these pieces under the numbers from `i` on.
abbrev Holds : PacketRecvQueue → ℕ → List Bytes → Type 0
Holds q i [] = Unit
Holds q i (c ∷ cs) = (find i q.packets ≡ some (packet_of c)) × Holds q (u16 (i + 1)) cs

abbrev id_seq : ℕ → ℕ
id_seq i = i

payload-Holds :
    (cs : List Bytes) (q : PacketRecvQueue) (i : ℕ)
    → Holds q i cs
    → AllEven cs
    → (payload q id_seq (seqs i (length cs)) ≡ join cs)
      × (all (has_packet q id_seq) (seqs i (length cs)) ≡ true)
payload-Holds [] q i h even = (refl, refl)
payload-Holds (c ∷ cs) q i h even =
    let (p, a) = payload-Holds cs q (u16 (i + 1)) h.1 even.1 in
    (ground (arith, h.0, even.0), ground (arith, h.0))

Holds-of-find :
    (cs : List Bytes) (q : PacketRecvQueue) (i : ℕ)
    → i < 2 ^ 16
    → length cs < 2 ^ 16
    → ((k : ℕ)
        → k < 2 ^ 16
        → sub16 k i < length cs
        → find k q.packets ≡ kept_or none (get_elem? cs (sub16 k i)))
    → Holds q i cs
Holds-of-find [] q i hi few at = tt
Holds-of-find (c ∷ cs) q i hi few at = (
  at i hi (omega arith) ∙ ap (λ d. kept_or none (get_elem? (c ∷ cs) d)) first,
  Holds-of-find cs q (u16 (i + 1)) (omega arith) (omega arith) later,
)
  where
    first : sub16 i i ≡ 0
    first = omega arith

    later :
        (k : ℕ)
        → k < 2 ^ 16
        → sub16 k (u16 (i + 1)) < length cs
        → find k q.packets ≡ kept_or none (get_elem? cs (sub16 k (u16 (i + 1))))
    later k hk near =
        let rest : sub16 k i ≡ suc (sub16 k (u16 (i + 1))) = omega arith in
        at k hk (omega arith) ∙ ap (λ d. kept_or none (get_elem? (c ∷ cs) d)) rest

store_all-full :
    (cs : List Bytes) (q : PacketSendQueue)
    → ((k : ℕ) (d : PacketDescr) → find k q.packets ≡ some d → length (block_of d) ≡ d.size)
    → (k : ℕ) (d : PacketDescr) → find k (store_all q cs).packets ≡ some d
    → length (block_of d) ≡ d.size
store_all-full [] q full k d e = full k d e
store_all-full (c ∷ cs) q full k d e = store_all-full cs (store q c) kept k d e
  where
    kept :
        (j : ℕ) (x : PacketDescr)
        → find j (store q c).packets ≡ some x
        → length (block_of x) ≡ x.size
    kept j x h = ground (arith, find-emplace (next_seq q) j (packet_of c) q.packets, full j x)

-- The pieces as stored by a sender with nothing in its queue yet.
module _ (q : PacketSendQueue) (fresh : q.packets ≡ []) (first : q.end_seq ≡ 0)
    (cs : List Bytes) where
  find-fresh : (k : ℕ) → find k q.packets ≡ none
  unfolding find
  find-fresh k = rw fresh

  received-Holds :
      (r : PacketRecvQueue)
      → length cs < 2 ^ 16
      → ((k : ℕ) → find k r.packets ≡ find k (store_all q cs).packets)
      → Holds r 1 cs
  received-Holds r few same = Holds-of-find cs r 1 (omega arith) few (λ k hk near.
      same k
      ∙ find-store_all cs q k hk few
      ∙ ap₂ kept_or (find-fresh k)
          (ap (λ (n : ℕ). get_elem? cs (sub16 k n)) {x = next_seq q} (omega arith)))

  received-AllFull :
      (r : PacketRecvQueue)
      → ((k : ℕ) → find k r.packets ≡ find k (store_all q cs).packets)
      → AllFull r
  received-AllFull r same = record {
    full =
        λ k d e. store_all-full cs q (λ j x h. absurd (cc (find-fresh j))) k d (sym (same k) ∙ e);
  }

  range-sent : length cs < 2 ^ 16 → range 1 (next_seq (store_all q cs)) ≡ seqs 1 (length cs)
  range-sent few =
      let last = end_seq-store_all cs q (omega arith) in
      ap (seqs 1) {x = sub16 (next_seq (store_all q cs)) 1} (omega arith)

  copy_data-store_all :
      (mem : Bytes) (r : PacketRecvQueue)
      → length cs < 2 ^ 16
      → AllEven cs
      → length (join cs) < 2 ^ 32
      → length (join cs) ≤ length mem
      → r.seq_mapping ≡ []
      → ((k : ℕ) → find k r.packets ≡ find k (store_all q cs).packets)
      → copy_data r mem 1 (next_seq (store_all q cs))
        ≡ done (join cs ++ drop (length (join cs)) mem)
  unfolding find
  copy_data-store_all mem r few even small room unmapped same =
      let (whole, present) = payload-Holds cs r 1 (received-Holds r few same) even in
      let is = range-sent few in
      let whole' = ap (payload r id_seq) is ∙ whole in
      let present' = ap (all (has_packet r id_seq)) is ∙ present in
      copy_data_lem r id_seq (λ i h. resolve_seq_unmapped r i (rw unmapped))
        (received-AllFull r same) mem 1 (next_seq (store_all q cs)) (omega arith) (omega arith)
        (rw whole' room) (rw whole' small)
      ∙ rw (present', whole')

-- A buffer of an even size below 2 ^ 32, sent from a new queue with an even `mtu` in at most
-- 2 ^ 16 - 1 packets, is what `copy_data` writes at the receiver, whose queue came to hold the
-- same packets under the same numbers. Memory does not run out at the sender, and the receiver's
-- memory has room for the buffer.
pub copy_data-push_buffer :
    (malloc : ℕ → Bool) (mtu : ℕ) (buffer mem : Bytes) (r : PacketRecvQueue) {s : PacketSendQueue}
    → ((n : ℕ) → malloc n ≡ true)
    → 0 < mtu
    → mtu % 2 ≡ 0
    → length buffer % 2 ≡ 0
    → length buffer < 2 ^ 32
    → length buffer ≤ 0xffff * mtu
    → length buffer ≤ length mem
    → push_buffer malloc (record new_send_queue { mtu = mtu }) buffer (length buffer) ≡ done s
    → r.seq_mapping ≡ []
    → ((k : ℕ) → find k r.packets ≡ find k s.packets)
    → copy_data r mem 1 (next_seq s) ≡ done (buffer ++ drop (length buffer) mem)
copy_data-push_buffer malloc mtu buffer mem r {s} fits hm em even small few room sent unmapped
      same =
    let q = record new_send_queue { mtu = mtu } in
    let cs = chunks (suc (length buffer)) mtu buffer in
    let whole = join-chunks (suc (length buffer)) mtu buffer hm (omega arith) in
    let stored : store_all q cs ≡ s = cc (push_buffer-store_all malloc fits q buffer hm small) in
    rw (← stored) (
      copy_data-store_all q refl refl cs mem r
        (omega (arith, length-chunks (suc (length buffer)) mtu 0xffff buffer hm few))
        (chunks-AllEven (suc (length buffer)) mtu buffer em even) (rw whole small) (rw whole room)
        unmapped (λ k. same k ∙ ap (λ (t : PacketSendQueue). find k t.packets) (sym stored))
      ∙ ap (λ b. done (b ++ drop (length b) mem)) whole)
