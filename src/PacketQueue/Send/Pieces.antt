-- ===== src/PacketQueue/Send/Pieces.antt =====
-- What `push_buffer` leaves in the queue.
use udp_stuff.Base.{
  ℕ, suc, ◌+◌, ◌*◌, ◌^◌, ◌<◌, ◌≤◌, ◌≡◌, refl, arith, Bool, true, List, [], ◌∷◌, Bytes, length, done,
  u16, sub16, find, get_elem?,
}
use udp_stuff.PacketQueue.Send.{PacketSendQueue, next_seq, push_buffer}
use udp_stuff.PacketQueue.Send.Push.{
  chunks, join, join-chunks, store, store_all, push_buffer-store_all, length-chunks, find-store_all,
  kept_or, end_seq-store_all,
}

unchanged :
    (cs : List Bytes) (q : PacketSendQueue)
    → ((store_all q cs).mtu ≡ q.mtu) × ((store_all q cs).start_seq ≡ q.start_seq)
unchanged [] q = (refl, refl)
unchanged (c ∷ cs) q = unchanged cs (store q c)

-- If `mtu` is not 0, the buffer is below 2 ^ 32 bytes and has at most 2 ^ 16 - 1 pieces, and memory does
-- not run out, `push_buffer` returns. The pieces of `mtu` bytes, the last one shorter, are the buffer
-- when they are joined. `end_seq` goes on by their number. Under each number behind the old `end_seq`
-- lies the piece in its turn if no packet had that number, and otherwise the packet that had it, so that
-- the piece is lost. Every other packet stays.
pub push_buffer_lem :
    (malloc : ℕ → Bool) (q : PacketSendQueue) (mem : Bytes)
    → ((n : ℕ) → malloc n ≡ true)
    → 0 < q.mtu
    → length mem < 2 ^ 32
    → length mem ≤ 0xffff * q.mtu
    → q.end_seq < 2 ^ 16
    → let pieces = chunks (suc (length mem)) q.mtu mem in
      (s : PacketSendQueue) × (push_buffer malloc q mem (length mem) ≡ done s)
      × (join pieces ≡ mem)
      × (s.end_seq ≡ u16 (q.end_seq + length pieces))
      × (s.mtu ≡ q.mtu)
      × (s.start_seq ≡ q.start_seq)
      × ((k : ℕ)
          → find (u16 k) s.packets
            ≡ kept_or (find (u16 k) q.packets) (get_elem? pieces (sub16 (u16 k) (next_seq q))))
push_buffer_lem malloc q mem fits pos small few word =
    let pieces = chunks (suc (length mem)) q.mtu mem in
    let count = length-chunks (suc (length mem)) q.mtu 0xffff mem pos few in
    let same = unchanged pieces q in
    (
      store_all q pieces,
      push_buffer-store_all malloc fits q mem pos small,
      join-chunks (suc (length mem)) q.mtu mem pos (omega arith),
      end_seq-store_all pieces q word,
      same.0,
      same.1,
      λ k. find-store_all pieces q (u16 k) (omega arith) (omega arith),
    )
