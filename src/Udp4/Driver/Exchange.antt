-- ===== src/Udp4/Driver/Exchange.antt =====
-- A packet of `send_packet`, at the driver of the other side.
use udp_stuff.Base.{
  ℕ, ◌+◌, ◌-◌, ◌*◌, ◌/◌, ◌%◌, ◌^◌, ◌≤◌, ◌<◌, ◌≡◌, refl, ap, arith, ◌∙◌, Bool, true, false, List,
  ◌++◌, Bytes, length, length-take, take, some, ltb, ◌==◌, if◌then◌else◌, done, ◌>>=◌, u16, u32,
  sub64, u64,
}
use udp_stuff.Udp4.Checksum.{add, finish}
use udp_stuff.Udp4.Checksum.Words.{add_lem, word_sum}
use udp_stuff.Udp4.Checksum.Fold.{finish_lem}
use udp_stuff.Udp4.Driver.{
  Addr, deliver, recv_headers, find_conn, ip_header, udp_header, checksum, send_packet,
  recv_checked, recv_message,
}

-- The address of a connection, as the other side has it.
abbrev pub reversed : Addr → Addr
reversed a = record {
  src_ip = a.dst_ip;
  dst_ip = a.src_ip;
  src_port = a.dst_port;
  dst_port = a.src_port;
}

pub record IsAddr (a : Addr) : Type 0 where
  pub src_ip_fits : a.src_ip < 2 ^ 32
  pub dst_ip_fits : a.dst_ip < 2 ^ 32
  pub src_port_fits : a.src_port < 2 ^ 16
  pub dst_port_fits : a.dst_port < 2 ^ 16

bounded : (n : ℕ) → u32 n < 2 ^ 32
bounded n = omega arith

add-finish :
    (data_ : Bytes) (l s : ℕ)
    → 2 ≤ l
    → l ≤ length data_
    → (c : ℕ) × ((add data_ l s >>= λ f. finish f) ≡ done c)
add-finish data_ l s two h =
    let e = add_lem data_ l s two h in
    let (c, f, small, more, top) = finish_lem _ (bounded (s + word_sum (take l data_))) in
    (c, rw e f)

checksum_lem :
    (addr : Addr) (len : ℕ) (data_ : Bytes) (l : ℕ)
    → 2 ≤ l
    → l ≤ length data_
    → (c : ℕ) × (checksum addr len data_ l ≡ done c)
unfolding checksum
checksum_lem addr len data_ l two h = add-finish data_ l _ two h

deliver_lem :
    (m : List (Addr × ℕ)) (content : Bytes) (l conn : ℕ) (addr : Addr) (id : ℕ) (is_control : Bool)
    (s t p q n f : ℕ)
    → find_conn (reversed addr) m ≡ some conn
    → s ≡ addr.dst_ip
    → t ≡ addr.src_ip
    → p ≡ addr.dst_port
    → q ≡ addr.src_port
    → n ≡ id
    → (f / 2 ^ 7 % 2 == 1) ≡ is_control
    → deliver
        (find_conn (record { src_ip = s; dst_ip = t; src_port = p; dst_port = q }) m)
        content
        n
        f
        l
      ≡ some
          (record { conn = conn; control = is_control; id = id; content = content; data_len = l })
deliver_lem m content l conn addr id is_control s t p q n f known e1 e2 e3 e4 e5 e6 =
    rw (e1, e2, e3, e4, e5, known, e6) refl

flag_lem :
    (is_control : Bool)
    → (((if is_control then 0x80 else 0) + 0 * 2 ^ 8) / 2 ^ 7 % 2 == 1) ≡ is_control
flag_lem true = refl
flag_lem false = refl

recv_headers_lem :
    (conn_map : List (Addr × ℕ)) (conn id check l : ℕ) (addr : Addr) (payload rest : Bytes)
    (is_control : Bool)
    → IsAddr addr
    → id < 2 ^ 16
    → find_conn (reversed addr) conn_map ≡ some conn
    → recv_headers conn_map
        (ip_header addr id is_control ++ udp_header addr (8 + l) check ++ payload ++ rest)
        20
        l
      ≡ done (
          some (record {
            conn = conn;
            control = is_control;
            id = id;
            content = payload ++ rest;
            data_len = l;
          }))
unfolding recv_headers
recv_headers_lem conn_map conn id check l addr payload rest is_control v i known =
    let a = v.src_ip_fits in
    let b = v.dst_ip_fits in
    let c = v.src_port_fits in
    let d = v.dst_port_fits in
    ap done (
      deliver_lem conn_map (payload ++ rest) l conn addr id is_control _ _ _ _ _ _ known
        (omega arith) (omega arith) (omega arith) (omega arith) (omega arith) (flag_lem is_control))

recv_checked_lem :
    (conn_map : List (Addr × ℕ)) (conn id check l : ℕ) (addr : Addr) (payload rest : Bytes)
    (is_control : Bool)
    → IsAddr addr
    → id < 2 ^ 16
    → 8 + l < 2 ^ 16
    → find_conn (reversed addr) conn_map ≡ some conn
    → recv_checked conn_map
        (ip_header addr id is_control ++ udp_header addr (8 + l) check ++ payload ++ rest)
        (28 + l)
        20
        (8 + l)
      ≡ done (
          some (record {
            conn = conn;
            control = is_control;
            id = id;
            content = payload ++ rest;
            data_len = l;
          }))
unfolding recv_checked
recv_checked_lem conn_map conn id check l addr payload rest is_control v i len known =
    let good : (28 + l == u64 (20 + 8 + sub64 (8 + l) 8)) ≡ true = ground arith in
    let size : sub64 (8 + l) 8 ≡ l = omega arith in
    rw (good, size)
      (recv_headers_lem conn_map conn id check l addr payload rest is_control v i known)

-- What stands in the bytes of a message to an address.
recv_packet_bytes :
    (conn_map : List (Addr × ℕ)) (conn id check l : ℕ) (addr : Addr) (payload rest : Bytes)
    (is_control : Bool)
    → IsAddr addr
    → id < 2 ^ 16
    → 8 + l < 2 ^ 16
    → find_conn (reversed addr) conn_map ≡ some conn
    → recv_message conn_map
        (ip_header addr id is_control ++ udp_header addr (8 + l) check ++ payload ++ rest)
        (28 + l)
      ≡ done (
          some (record {
            conn = conn;
            control = is_control;
            id = id;
            content = payload ++ rest;
            data_len = l;
          }))
unfolding recv_message
recv_packet_bytes conn_map conn id check l addr payload rest is_control v i len known =
    let a = v.src_ip_fits in
    let b = v.dst_ip_fits in
    let c = v.src_port_fits in
    let d = v.dst_port_fits in
    let buf = ip_header addr id is_control ++ udp_header addr (8 + l) check ++ payload ++ rest in
    ap (recv_checked conn_map buf (28 + l) 20) {y = 8 + l} (omega arith)
    ∙ recv_checked_lem conn_map conn id check l addr payload rest is_control v i len known

-- Data of 2 bytes and more, which fit one packet, are sent with their header of 28 bytes; the driver of the other
-- side, whose buffer has the packet and anything behind it, hands the connection of the reversed address the
-- same bytes, with their length, the id, and whether they are control data.
pub recv_message-send_packet :
    (conn_map : List (Addr × ℕ)) (conn id l : ℕ) (addr : Addr) (data_ rest : Bytes)
    (is_control : Bool)
    → IsAddr addr
    → id < 2 ^ 16
    → 2 ≤ l
    → l ≤ length data_
    → 8 + l < 2 ^ 16
    → find_conn (reversed addr) conn_map ≡ some conn
    → (packet : Bytes) × (send_packet addr id data_ l is_control ≡ done packet)
      × (length packet ≡ 28 + l)
      × (recv_message conn_map (packet ++ rest) (28 + l)
          ≡ done (
              some (record {
                conn = conn;
                control = is_control;
                id = id;
                content = take l data_ ++ rest;
                data_len = l;
              })))
unfolding send_packet
recv_message-send_packet conn_map conn id l addr data_ rest is_control v i two h fits known =
    let (check, c) = checksum_lem addr (8 + l) data_ l two h in
    let len : u16 (8 + l) ≡ 8 + l = omega arith in
    let there : ltb (length data_) l ≡ false = ground arith in
    let n = length-take l data_ in
    (
      ip_header addr id is_control ++ udp_header addr (8 + l) check ++ take l data_,
      rw (len, c, there) refl,
      omega arith,
      recv_packet_bytes conn_map conn id check l addr (take l data_) rest is_control v i fits known,
    )

-- A message whose UDP header claims a length below its own 8 bytes is not passed over, if the message is as
-- long as it claims: the length of its data wraps, to a number next to 2 ^ 64.
pub recv_checked-short :
    (conn_map : List (Addr × ℕ)) (buf : Bytes) (udph len : ℕ)
    → udph ≤ 60
    → len < 8
    → recv_checked conn_map buf (udph + len) udph len
      ≡ recv_headers conn_map buf udph (2 ^ 64 + len - 8)
unfolding recv_checked
recv_checked-short conn_map buf udph len small short =
    let good : (udph + len == u64 (udph + 8 + sub64 len 8)) ≡ true = ground arith in
    let size : sub64 len 8 ≡ 2 ^ 64 + len - 8 = omega arith in rw (good, size) refl
