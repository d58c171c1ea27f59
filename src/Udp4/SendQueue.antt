-- ===== src/Udp4/SendQueue.antt =====
-- udp4.h, `SendPacketQueue`: datagrams gathered for one `sendmmsg`.
pub mod Batch
use udp_stuff.Base.{
  ℕ, zero, suc, ◌+◌, ◌-◌, ◌≤◌, Bool, true, false, Option, none, some, List, [], ◌∷◌, ◌++◌, length,
  take, drop, Bytes, ltb, ◌==◌, if◌then◌else◌, Outcome, done, throws, fault, hangs, runtime_error,
  ◌>>=◌,
}
use udp_stuff.PacketQueue.Descr.{read_bytes}
use udp_stuff.ChainedBuffer.{ChainedBuffer, vector_insert}

-- `dst_addr` is any value that stands for an address.
pub record PacketDescr : Type 0 where
  pub len : ℕ
  pub dst_addr : ℕ

pub record SendPacketQueue : Type 0 where
  pub msg_descr : List PacketDescr
  pub packet_buffers : Bytes

abbrev pub new_queue : SendPacketQueue
new_queue = record { msg_descr = []; packet_buffers = [] }

-- A message of `sendmmsg`: the destination, and the bytes of its one `iovec`.
pub record Message : Type 0 where
  pub name : ℕ
  pub iov : Bytes

unfoldable pub push : SendPacketQueue → ChainedBuffer → ℕ → Outcome SendPacketQueue
push q packet dst_addr = do
  buffers ← vector_insert packet q.packet_buffers
  let len = length buffers - length q.packet_buffers
  done (record {
    msg_descr = q.msg_descr ++ record { len = len; dst_addr = dst_addr } ∷ [];
    packet_buffers = buffers;
  })

-- The first loop of `send`; the bytes are those from `data` on.
unfoldable pub messages_of : List PacketDescr → Bytes → Outcome (List Message)
messages_of [] b = done []
messages_of (d ∷ ds) b = do
  iov ← read_bytes d.len b
  ms ← messages_of ds (drop d.len b)
  done (record { name = d.dst_addr; iov = iov } ∷ ms)

-- The `do` loop of `send`. The list holds what each call of `sendmmsg` returns, `none` for -1; the
-- result is what the calls took, in order. With no reply left the loop waits for ever.
unfoldable pub send_rest : List (Option ℕ) → List Message → ℕ → ℕ → Outcome (List Message)
send_rest [] ms n sent = hangs
send_rest (none ∷ replies) ms n sent = throws runtime_error
send_rest (some l ∷ replies) ms n sent =
    let rest = send_rest replies (drop l ms) n (sent + l) in
    if ltb (sent + l) n then (rest >>= λ later. done (take l ms ++ later)) else done (take l ms)

-- `packet_buffers.empty()` asks whether the vector is empty, and leaves it as it is.
unfoldable pub clear : SendPacketQueue → SendPacketQueue
clear q = record q { msg_descr = [] }

unfoldable pub send : SendPacketQueue → List (Option ℕ) → Outcome (SendPacketQueue × List Message)
unfolding messages_of send_rest clear
send q replies = do
  ms ← messages_of q.msg_descr q.packet_buffers
  took ← send_rest replies ms (length q.msg_descr) 0
  done (clear q, took)
