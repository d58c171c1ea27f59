-- ===== src/Udp4/SendQueue/Batch.antt =====
-- What a batch of pushed datagrams comes to at `sendmmsg`.
use udp_stuff.Base.{
  ℕ, suc, ◌+◌, ◌-◌, ◌≤◌, ◌<◌, ◌≡◌, ◌⊎◌, inl, inr, refl, ap, ◌∙◌, arith, Option, none, some, List,
  [], ◌∷◌, ◌++◌, append-nil, append_assoc, length, length-append, take, drop, take-append,
  take-append_le, drop-append, take-length, length-drop, take-append-drop, Bytes, Outcome, done,
  ◌>>=◌,
}
use udp_stuff.ChainedBuffer.{ChainedBuffer}
use udp_stuff.ChainedBuffer.Order.{wire, IsComplete, vector_insert-wire}
use udp_stuff.Udp4.SendQueue.{
  PacketDescr, SendPacketQueue, new_queue, Message, push, messages_of, send_rest, clear, send,
}

abbrev pub descr_of : ChainedBuffer × ℕ → PacketDescr
descr_of (c, dst) = record { len = length (wire c); dst_addr = dst }

abbrev pub message_of : ChainedBuffer × ℕ → Message
message_of (c, dst) = record { name = dst; iov = wire c }

abbrev pub push_all : SendPacketQueue → List (ChainedBuffer × ℕ) → Outcome SendPacketQueue
push_all q [] = done q
push_all q ((c, dst) ∷ ps) = push q c dst >>= λ q'. push_all q' ps

abbrev pub AllComplete : List (ChainedBuffer × ℕ) → Type 0
AllComplete [] = Unit
AllComplete ((c, dst) ∷ ps) = IsComplete c × AllComplete ps

abbrev pub messages : List (ChainedBuffer × ℕ) → List Message
messages [] = []
messages (p ∷ ps) = message_of p ∷ messages ps

abbrev descrs : List (ChainedBuffer × ℕ) → List PacketDescr
descrs [] = []
descrs (p ∷ ps) = descr_of p ∷ descrs ps

abbrev wires : List (ChainedBuffer × ℕ) → Bytes
wires [] = []
wires ((c, dst) ∷ ps) = wire c ++ wires ps

push_lem :
    (q : SendPacketQueue) (c : ChainedBuffer) (dst : ℕ)
    → IsComplete c
    → push q c dst
      ≡ done (record {
        msg_descr = q.msg_descr ++ descr_of (c, dst) ∷ [];
        packet_buffers = q.packet_buffers ++ wire c;
      })
unfolding push
push_lem q c dst h =
    let more = length-append q.packet_buffers (wire c) in
    let len : length (q.packet_buffers ++ wire c) - length q.packet_buffers ≡ length (wire c) =
      omega arith in
    rw (vector_insert-wire c q.packet_buffers h, len)

push_all_lem :
    (ps : List (ChainedBuffer × ℕ)) (q : SendPacketQueue)
    → AllComplete ps
    → push_all q ps
      ≡ done (record {
        msg_descr = q.msg_descr ++ descrs ps;
        packet_buffers = q.packet_buffers ++ wires ps;
      })
push_all_lem [] q h = rw (append-nil, append-nil)
push_all_lem ((c, dst) ∷ ps) q h =
    rw (push_lem q c dst h.0) (push_all_lem ps _ h.1 ∙ rw (append_assoc, append_assoc))

messages_of-descrs :
    (ps : List (ChainedBuffer × ℕ)) (behind : Bytes)
    → messages_of (descrs ps) (wires ps ++ behind) ≡ done (messages ps)
unfolding messages_of
messages_of-descrs [] behind = refl
messages_of-descrs ((c, dst) ∷ ps) behind = ground (
  arith,
  append_assoc (wire c) (wires ps) behind,
  take-append (wire c) (wires ps ++ behind),
  drop-append (wire c) (wires ps ++ behind),
  length-append (wire c) (wires ps ++ behind),
  messages_of-descrs ps behind,
)

length-descrs : (ps : List (ChainedBuffer × ℕ)) → length (descrs ps) ≡ length (messages ps)
length-descrs [] = refl
length-descrs (p ∷ ps) = ap suc (length-descrs ps)

-- The calls of `sendmmsg` take all of `n` messages, some at a time and never more than are left.
abbrev pub TakesAll : ℕ → List (Option ℕ) → Type 0
TakesAll n [] = ⊥
TakesAll n (none ∷ replies) = ⊥
TakesAll n (some l ∷ replies) = (l ≡ n) ⊎ ((l < n) × TakesAll (n - l) replies)

send_rest_lem :
    (replies : List (Option ℕ)) (ms : List Message) (n sent : ℕ)
    → sent + length ms ≡ n
    → TakesAll (length ms) replies
    → send_rest replies ms n sent ≡ done ms
unfolding send_rest
send_rest_lem [] ms n sent e h = absurd h
send_rest_lem (none ∷ replies) ms n sent e h = absurd h
send_rest_lem (some l ∷ replies) ms n sent e (inl last) = ground (arith, take-length l ms)
send_rest_lem (some l ∷ replies) ms n sent e (inr (more, rest)) =
    let left = length-drop l ms in
    let go = send_rest_lem replies (drop l ms) n (sent + l) (omega arith) (rw left rest) in
    ground (arith, go, take-append-drop l ms)

-- Datagrams pushed onto an empty queue, and sent: every one goes out once, in order, to its
-- address and with its own bytes, if the calls of `sendmmsg` take them all.
pub send-push_all :
    (ps : List (ChainedBuffer × ℕ)) (replies : List (Option ℕ))
    → AllComplete ps
    → TakesAll (length (messages ps)) replies
    → (q : SendPacketQueue) × (push_all new_queue ps ≡ done q)
      × (q' : SendPacketQueue) × (send q replies ≡ done (q', messages ps))
unfolding send
send-push_all ps replies h k =
    let q : SendPacketQueue = record { msg_descr = descrs ps; packet_buffers = wires ps } in
    let count = length-descrs ps in
    (
      q,
      push_all_lem ps new_queue h,
      clear q,
      ground (
        arith,
        append-nil (wires ps),
        messages_of-descrs ps [],
        send_rest_lem replies (messages ps) (length (descrs ps)) 0 (omega arith) k,
      ),
    )

-- After a batch its bytes stay in the queue. The next datagram, if it is no longer than these,
-- goes out with the first bytes of that batch in the place of its own.
pub send_after_batch :
    (q : SendPacketQueue) (c : ChainedBuffer) (dst : ℕ)
    → IsComplete c
    → length (wire c) ≤ length q.packet_buffers
    → (q' : SendPacketQueue) × (push (clear q) c dst ≡ done q')
      × (q'' : SendPacketQueue) × (send q' (some 1 ∷ [])
          ≡ done (q'', record { name = dst; iov = take (length (wire c)) q.packet_buffers } ∷ []))
unfolding send clear messages_of send_rest
send_after_batch q c dst h short =
    let stale = q.packet_buffers in
    let q' : SendPacketQueue = record {
      msg_descr = descr_of (c, dst) ∷ [];
      packet_buffers = stale ++ wire c;
    } in
    (
      q',
      push_lem (clear q) c dst h,
      clear q',
      ground (
        arith,
        take-append_le (length (wire c)) stale (wire c) short,
        length-append stale (wire c),
      ),
    )
