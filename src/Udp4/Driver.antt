-- ===== src/Udp4/Driver.antt =====
-- udp4.h, `Udp4Driver`: the packets that it sends, and what it makes of those that it receives.
pub mod Exchange
use udp_stuff.Base.{
  ℕ, zero, suc, ◌+◌, ◌-◌, ◌*◌, ◌/◌, ◌%◌, ◌^◌, Bool, true, false, ◌&&◌, List, [], ◌∷◌, ◌++◌, Bytes,
  length, take, drop, Option, none, some, ltb, ◌==◌, if◌then◌else◌, Outcome, done, throws, fault,
  hangs, ◌>>=◌, u16, u32, sub64, u64,
}
use udp_stuff.Udp4Conn.{read16, le16}
use udp_stuff.Udp4.Checksum.{add, finish}

pub record Addr : Type 0 where
  pub src_ip : ℕ
  pub dst_ip : ℕ
  pub src_port : ℕ
  pub dst_port : ℕ

-- The two integers of `hash_prepv` have 32 bits, since the narrower are promoted; the product is a `size_t`.
abbrev hash_prepv : ℕ → ℕ → ℕ
hash_prepv v m = let n = u32 (v * m) in if n % 2 == 1 then n else n + 1

unfoldable pub hash : Addr → ℕ
hash a = u64 (
    hash_prepv a.src_ip 457
    * hash_prepv a.dst_ip 765
    * hash_prepv a.src_port 43
    * hash_prepv a.dst_port 75)

unfoldable pub addr_eq : Addr → Addr → Bool
addr_eq a b =
    a.src_ip == b.src_ip
    && a.dst_ip == b.dst_ip
    && a.src_port == b.src_port
    && a.dst_port == b.dst_port

-- `conn_map`, from addresses to connections.
unfoldable pub find_conn : Addr → List (Addr × ℕ) → Option ℕ
unfolding addr_eq
find_conn a [] = none
find_conn a ((k, c) ∷ m) = let rest = find_conn a m in if addr_eq k a then some c else rest

unfoldable pub detach : Addr → List (Addr × ℕ) → List (Addr × ℕ)
unfolding addr_eq
detach a [] = []
detach a ((k, c) ∷ m) = let rest = detach a m in if addr_eq k a then rest else (k, c) ∷ rest

-- `insert` leaves an address that is there as it is.
unfoldable pub attach : Addr → ℕ → List (Addr × ℕ) → List (Addr × ℕ)
unfolding addr_eq
attach a conn [] = (a, conn) ∷ []
attach a conn ((k, c) ∷ m) =
    let rest = attach a conn m in if addr_eq k a then (k, c) ∷ m else (k, c) ∷ rest

-- The bytes of a word in the order of the network.
abbrev pub be16 : ℕ → Bytes
be16 n = n / 2 ^ 8 % 2 ^ 8 ∷ n % 2 ^ 8 ∷ []

abbrev pub le32 : ℕ → Bytes
le32 n = n % 2 ^ 8 ∷ n / 2 ^ 8 % 2 ^ 8 ∷ n / 2 ^ 16 % 2 ^ 8 ∷ n / 2 ^ 24 % 2 ^ 8 ∷ []

-- `struct iphdr`, as `send_packet` fills it.
abbrev pub ip_header : Addr → ℕ → Bool → Bytes
ip_header addr id is_control =
    0x45 ∷ 0 ∷ 0 ∷ 0 ∷ be16 id
    ++ (if is_control then 0x80 else 0) ∷ 0 ∷ 128 ∷ 17 ∷ 0 ∷ 0 ∷ le32 addr.src_ip
    ++ le32 addr.dst_ip

-- `struct udphdr`, with its length and its checksum.
abbrev pub udp_header : Addr → ℕ → ℕ → Bytes
udp_header addr len check = le16 addr.src_port ++ le16 addr.dst_port ++ be16 len ++ le16 check

-- The checksum over the pseudo header, the header and the data. Its field is 0 while it is summed.
unfoldable pub checksum : Addr → ℕ → Bytes → ℕ → Outcome ℕ
unfolding add finish
checksum addr len data_ l = do
  a ← add (le32 addr.src_ip) 4 0
  b ← add (le32 addr.dst_ip) 4 a
  c ← add (be16 17) 2 b
  d ← add (be16 len) 2 c
  e ← add (udp_header addr len 0) 8 d
  f ← add data_ l e
  finish f

-- The bytes that `send_packet` pushes onto the queue; `sizeof(udph) + l` becomes a word of 16 bits.
unfoldable pub send_packet : Addr → ℕ → Bytes → ℕ → Bool → Outcome Bytes
unfolding checksum
send_packet addr id data_ l is_control = do
  let len = u16 (8 + l)
  check ← checksum addr len data_ l
  if ltb (length data_) l
      then fault
      else done (ip_header addr id is_control ++ udp_header addr len check ++ take l data_)

-- A call of `process_data` or `process_control`: the bytes from the data on, and the length that is claimed.
pub record Processed : Type 0 where
  pub conn : ℕ
  pub control : Bool
  pub id : ℕ
  pub content : Bytes
  pub data_len : ℕ

abbrev pub swap16 : ℕ → ℕ
swap16 n = n % 2 ^ 8 * 2 ^ 8 + n / 2 ^ 8

abbrev read32 : Bytes → Outcome ℕ
read32 (a ∷ b ∷ c ∷ d ∷ bs) = done (a + b * 2 ^ 8 + c * 2 ^ 16 + d * 2 ^ 24)
read32 _ = fault

abbrev first_byte : Bytes → Outcome ℕ
first_byte [] = fault
first_byte (b ∷ bs) = done b

-- The call, if the connection of the address is known.
abbrev pub deliver : Option ℕ → Bytes → ℕ → ℕ → ℕ → Option Processed
deliver none content id frag_off data_len = none
deliver (some c) content id frag_off data_len = some (record {
  conn = c;
  control = frag_off / 2 ^ 7 % 2 == 1;
  id = id;
  content = content;
  data_len = data_len;
})

-- The header of a message whose length is right; the UDP header is at `udph`.
unfoldable pub recv_headers : List (Addr × ℕ) → Bytes → ℕ → ℕ → Outcome (Option Processed)
unfolding find_conn
recv_headers conn_map buf udph data_len = do
  dst_ip ← read32 (drop 12 buf)
  src_ip ← read32 (drop 16 buf)
  dst_port ← read16 (drop udph buf)
  src_port ← read16 (drop (udph + 2) buf)
  let addr : Addr = record {
    src_ip = src_ip;
    dst_ip = dst_ip;
    src_port = src_port;
    dst_port = dst_port;
  }
  id ← read16 (drop 4 buf)
  frag_off ← read16 (drop 6 buf)
  done (deliver (find_conn addr conn_map) (drop (udph + 8) buf) (swap16 id) frag_off data_len)

-- A round of `recv_all`, with the length of the UDP header: nothing if the message is passed over.
unfoldable pub recv_checked : List (Addr × ℕ) → Bytes → ℕ → ℕ → ℕ → Outcome (Option Processed)
unfolding recv_headers
recv_checked conn_map buf msg_len udph len =
    let data_len = sub64 len 8 in
    if msg_len == u64 (udph + 8 + data_len)
    then recv_headers conn_map buf udph data_len
    else done none

-- `buf` is the message's place in the buffer.
unfoldable pub recv_message : List (Addr × ℕ) → Bytes → ℕ → Outcome (Option Processed)
unfolding recv_checked
recv_message conn_map buf msg_len = do
  b ← first_byte buf
  let udph = b % 2 ^ 4 * 4
  len ← read16 (drop (udph + 4) buf)
  recv_checked conn_map buf msg_len udph (swap16 len)

-- `recv_all` over the messages that `recvmmsg` gave, with their lengths: the calls, in order.
unfoldable pub recv_all : List (Addr × ℕ) → List (Bytes × ℕ) → Outcome (List Processed)
unfolding recv_message
recv_all conn_map [] = done []
recv_all conn_map ((buf, msg_len) ∷ ms) = do
  p ← recv_message conn_map buf msg_len
  rest ← recv_all conn_map ms
  done (elim p [ none ↦ rest | some q ↦ q ∷ rest ])
