-- ===== src/Udp4Conn/Datagram.antt =====
-- A packet goes through `send_packet` and `recv_packet` unchanged.
use udp_stuff.Base.{
  ℕ, suc, ◌+◌, ◌*◌, ◌/◌, ◌%◌, ◌^◌, ◌<◌, ◌≤◌, ◌≡◌, ◌⊎◌, inl, inr, refl, arith, Bool, true, some, [],
  ◌∷◌, ◌++◌, length, drop, Bytes, if◌then◌else◌, done, throws, fault, bad_alloc, ◌>>=◌, u32, sub32,
  length-append, take-append, Bool-cases, take-length,
}
use udp_stuff.PacketQueue.Recv.{PacketRecvQueue, push_packet}
use udp_stuff.Udp4Conn.{Connection, le16, recv_packet, send_packet}

-- What `send_packet` hands to `sendto` is the number, its low byte first, and then the bytes.
pub send_packet_lem :
    (packet_buf src : Bytes) (id : ℕ)
    → length src + 2 ≤ length packet_buf
    → length src + 2 < 2 ^ 32
    → send_packet true packet_buf id src (length src)
      ≡ done (le16 id ++ (src ++ drop (length src + 2) packet_buf), le16 id ++ src)
unfolding send_packet
send_packet_lem [] src id room small = absurd (omega arith)
send_packet_lem (a ∷ []) src id room small = absurd (omega arith)
send_packet_lem (a ∷ b ∷ buf) src id room small =
    let two : 2 + length src ≡ suc (suc (length src)) = omega arith in
    let two' : length src + 2 ≡ suc (suc (length src)) = omega arith in
    let whole : u32 (length src + 2) ≡ suc (suc (length src)) = omega arith in
    ground (
      arith,
      two,
      two',
      whole,
      take-length (length src) src,
      take-append src (drop (length src) buf),
      length-append src (drop (length src) buf),
    )

-- A datagram of a number and `src` is taken for a packet of that number with these bytes, if the
-- buffer of the receiver holds it and whatever lies behind it there.
recv_packet_lem :
    (malloc : ℕ → Bool) (c : Connection) (id peer : ℕ) (src behind : Bytes)
    → id < 2 ^ 16
    → length src + 2 < 2 ^ 32
    → recv_packet malloc c (record {
      result = some (length (le16 id ++ src));
      packet_buf = (le16 id ++ src) ++ behind;
      from_addr = peer;
    })
      ≡ (push_packet malloc c.recv_queue id (src ++ behind) (length src) >>= λ q.
          done (record c { recv_queue = q; si_peer = peer }, true))
unfolding recv_packet
recv_packet_lem malloc c id peer src behind small fits =
    let number : id % 2 ^ 8 + id / 2 ^ 8 % 2 ^ 8 * 2 ^ 8 ≡ id = omega arith in
    let size : sub32 (suc (suc (length src))) 2 ≡ length src = omega arith in
    rw (number, size) (ground arith)

-- What `send_packet` gives to `sendto`, for a number of 16 bits and a packet that has room in its buffer,
-- `recv_packet` of the peer takes: it pushes a packet of that number with these bytes and this size, and
-- keeps the sender's address. The receiver's buffer may hold anything behind the datagram.
pub recv_packet-send_packet :
    (malloc : ℕ → Bool) (c : Connection) (id peer : ℕ) (packet_buf src behind : Bytes)
    → id < 2 ^ 16
    → length src + 2 ≤ length packet_buf
    → length src + 2 < 2 ^ 32
    → (filled : Bytes) × (datagram : Bytes) × (send_packet true packet_buf id src (length src)
        ≡ done (filled, datagram))
      × (recv_packet malloc c (record {
        result = some (length datagram);
        packet_buf = datagram ++ behind;
        from_addr = peer;
      })
          ≡ (push_packet malloc c.recv_queue id (src ++ behind) (length src) >>= λ q.
              done (record c { recv_queue = q; si_peer = peer }, true)))
recv_packet-send_packet malloc c id peer packet_buf src behind small room fits = (
  le16 id ++ (src ++ drop (length src + 2) packet_buf),
  le16 id ++ src,
  send_packet_lem packet_buf src id room fits,
  recv_packet_lem malloc c id peer src behind small fits,
)

-- Of a source that is too short no packet is made.
push_packet_short :
    (malloc : ℕ → Bool) (q : PacketRecvQueue) (seq size : ℕ) (src : Bytes)
    → length src < size
    → push_packet malloc q seq src size ≡ (if malloc size then fault else throws bad_alloc)
unfolding push_packet
push_packet_short malloc q seq size src h = ground arith

-- A datagram of one byte is taken for a packet of 2 ^ 32 - 1 bytes: the call never returns.
pub recv_packet_one_byte :
    (malloc : ℕ → Bool) (c : Connection) (peer : ℕ) (packet_buf : Bytes)
    → length packet_buf < 2 ^ 32
    → let r =
        recv_packet malloc c
          (record { result = some 1; packet_buf = packet_buf; from_addr = peer }) in
      (r ≡ fault) ⊎ (r ≡ throws bad_alloc)
unfolding recv_packet
recv_packet_one_byte malloc c peer [] h = inl refl
recv_packet_one_byte malloc c peer (a ∷ []) h = inl refl
recv_packet_one_byte malloc c peer (a ∷ b ∷ buf) h = elim (Bool-cases (malloc 0xffff_ffff)) [
  | inl ok ↦ inl (rw (short, ok))
  | inr out ↦ inr (rw (short, out))
]
  where
    short :
        push_packet malloc c.recv_queue (a + b * 2 ^ 8) buf 0xffff_ffff
        ≡ (if malloc 0xffff_ffff then fault else throws bad_alloc)
    short = push_packet_short malloc c.recv_queue (a + b * 2 ^ 8) 0xffff_ffff buf (omega arith)
