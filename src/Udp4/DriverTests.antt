-- ===== src/Udp4/DriverTests.antt =====
-- A packet from one driver to another, and one with a length that is too short.
use udp_stuff.Base.{
  ℕ, ◌+◌, ◌≡◌, refl, arith, true, List, [], ◌∷◌, ◌++◌, Bytes, length, take, some, done, fault,
}
use udp_stuff.Udp4.Driver.{
  Addr, hash, attach, detach, find_conn, send_packet, recv_message, recv_all,
}
use udp_stuff.Udp4.Driver.Exchange.{IsAddr, reversed, recv_message-send_packet}

abbrev addr : Addr
addr = record { src_ip = 1; dst_ip = 2; src_port = 3; dst_port = 4 }

abbrev conn_map : List (Addr × ℕ)
conn_map = (reversed addr, 9) ∷ []

attached : (attach (reversed addr) 9 [] ≡ conn_map) × (detach (reversed addr) conn_map ≡ [])
unfolding attach detach
attached = (refl, refl)

addr_hash : hash (record { src_ip = 0; dst_ip = 0; src_port = 0; dst_port = 2 }) ≡ 151
unfolding hash
addr_hash = refl

conn_found : find_conn (reversed addr) conn_map ≡ some 9
unfolding find_conn
conn_found = refl

addr-IsAddr : IsAddr addr
addr-IsAddr = record {
  src_ip_fits = omega arith;
  dst_ip_fits = omega arith;
  src_port_fits = omega arith;
  dst_port_fits = omega arith;
}

exchange_example :
    (packet : Bytes) × (send_packet addr 300 (7 ∷ 8 ∷ 9 ∷ []) 3 true ≡ done packet)
    × (length packet ≡ 28 + 3)
    × (recv_message conn_map (packet ++ 0 ∷ []) (28 + 3)
        ≡ done (
            some (record {
              conn = 9;
              control = true;
              id = 300;
              content = take 3 (7 ∷ 8 ∷ 9 ∷ []) ++ 0 ∷ [];
              data_len = 3;
            })))
exchange_example =
    recv_message-send_packet conn_map 9 300 3 addr (7 ∷ 8 ∷ 9 ∷ []) (0 ∷ []) true addr-IsAddr
      (omega arith) (omega arith) (omega arith) (omega arith) conn_found

short_buffer : recv_all [] ((0x45 ∷ 0 ∷ [], 0) ∷ []) ≡ fault
unfolding recv_all
short_buffer = refl
