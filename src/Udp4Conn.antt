-- ===== src/Udp4Conn.antt =====
-- udp4_conn.h, `UDP4Connection`: datagrams of a packet's number and its bytes.
pub mod Datagram
mod Tests
use udp_stuff.Base.{
  ℕ, zero, suc, ◌+◌, ◌*◌, ◌/◌, ◌%◌, ◌^◌, Bool, true, false, Option, none, some, List, [], ◌∷◌, ◌++◌,
  length, take, drop, Bytes, ltb, ◌==◌, if◌then◌else◌, Outcome, done, throws, fault, runtime_error,
  ◌>>=◌, u16, u32, sub32,
}
use udp_stuff.PacketQueue.Descr.{read_bytes}
use udp_stuff.PacketQueue.Recv.{PacketRecvQueue, push_packet, write_bytes, new_recv_queue}
use udp_stuff.PacketQueue.Send.{PacketSendQueue, new_send_queue}

-- `si_peer` is any value that stands for an address.
pub record Connection : Type 0 where
  pub recv_queue : PacketRecvQueue
  pub send_queue : PacketSendQueue
  pub si_peer : ℕ

-- What `recvfrom` did: its result (`none` for -1), the caller's buffer, and the sender's address.
pub record Received : Type 0 where
  pub result : Option ℕ
  pub packet_buf : Bytes
  pub from_addr : ℕ

-- The constructor; `setup_from_init_packet` does nothing.
unfoldable pub connect : ℕ → Bytes → ℕ → Connection
connect si_peer init_packet init_packet_size = record {
  recv_queue = new_recv_queue;
  send_queue = new_send_queue;
  si_peer = si_peer;
}

abbrev pub le16 : ℕ → Bytes
le16 n = n % 2 ^ 8 ∷ (n / 2 ^ 8) % 2 ^ 8 ∷ []

-- `*(uint16_t*)packet_buf`, on a little-endian machine.
abbrev pub read16 : Bytes → Outcome ℕ
read16 (a ∷ b ∷ bs) = done (a + b * 2 ^ 8)
read16 _ = fault

-- What follows a call that returned `n` bytes; `result - 2` becomes a `uint32_t`.
unfoldable pub take_packet : (ℕ → Bool) → Connection → Bytes → ℕ → Outcome (Connection × Bool)
take_packet malloc c packet_buf n = do
  id ← read16 packet_buf
  q ← push_packet malloc c.recv_queue id (drop 2 packet_buf) (sub32 n 2)
  done (record c { recv_queue = q }, true)

unfoldable pub recv_packet : (ℕ → Bool) → Connection → Received → Outcome (Connection × Bool)
unfolding take_packet
recv_packet malloc c e = elim e.result [
  | none ↦ throws runtime_error
  | some n ↦
      (let c' = record c { si_peer = e.from_addr } in
        if n == 0 then done (c', false) else take_packet malloc c' e.packet_buf n)
]

-- The flag says whether `sendto` succeeded. The results are the caller's buffer, and the bytes
-- that `sendto` was given.
unfoldable pub send_packet : Bool → Bytes → ℕ → Bytes → ℕ → Outcome (Bytes × Bytes)
send_packet sent packet_buf id src size = do
  headed ← write_bytes packet_buf 0 (le16 id)
  b ← read_bytes size src
  filled ← write_bytes headed 2 b
  datagram ← read_bytes (u32 (size + 2)) filled
  if sent then done (filled, datagram) else throws runtime_error
