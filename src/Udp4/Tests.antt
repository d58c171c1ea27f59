-- ===== src/Udp4/Tests.antt =====
-- Runs of udp4.h, and the theorems at small inputs.
use udp_stuff.Base.{
  ℕ, ◌+◌, ◌%◌, ◌^◌, ◌<◌, ◌≡◌, inl, inr, refl, arith, some, List, [], ◌∷◌, done, u32, take,
}
use udp_stuff.ChainedBuffer.{ChainedBuffer, struct_init_buffer}
use udp_stuff.Udp4.Checksum.{add, finish}
use udp_stuff.Udp4.Checksum.Fold.{finish_lem}
use udp_stuff.Udp4.Checksum.Words.{word_sum, add_lem}
use udp_stuff.Udp4.SendQueue.{SendPacketQueue, new_queue, send}
use udp_stuff.Udp4.SendQueue.Batch.{push_all, messages, send-push_all}

finish_run : finish 0x2_ffff ≡ done 0xfffd
unfolding finish
finish_run = refl

finish_example :
    (c : ℕ) × (finish 0x1_ffff ≡ done c)
    × (c < 2 ^ 16)
    × ((0x1_ffff + c) % 0xffff ≡ 0)
    × (c ≡ 0xffff → ◌≡◌ {A = ℕ} 0x1_ffff 0)
finish_example = finish_lem 0x1_ffff (omega arith)

add_example : add (1 ∷ 2 ∷ 3 ∷ 4 ∷ []) 3 5 ≡ done (u32 (5 + word_sum (take 3 (1 ∷ 2 ∷ 3 ∷ 4 ∷ []))))
add_example = add_lem (1 ∷ 2 ∷ 3 ∷ 4 ∷ []) 3 5 (omega arith) (omega arith)

abbrev batch : List (ChainedBuffer × ℕ)
batch = (struct_init_buffer (1 ∷ 2 ∷ 3 ∷ []), 7) ∷ (struct_init_buffer (4 ∷ 5 ∷ []), 8) ∷ []

send_example :
    (q : SendPacketQueue) × (push_all new_queue batch ≡ done q)
    × (q' : SendPacketQueue) × (send q (some 1 ∷ some 0 ∷ some 1 ∷ []) ≡ done (q', messages batch))
send_example =
    send-push_all batch (some 1 ∷ some 0 ∷ some 1 ∷ []) (tt, (tt, tt))
      (inr (omega arith, inr (omega arith, inl refl)))

abbrev used : SendPacketQueue
used = record { msg_descr = []; packet_buffers = 1 ∷ 2 ∷ 3 ∷ 4 ∷ 5 ∷ [] }
