-- ===== src/Udp4/Filter.antt =====
-- socket_filter.h and udp4.h, `filter_udp_port`: programs of the packet filter of the system, which is
-- a parameter. Ports are as the host counts them.
pub mod Ports
use udp_stuff.Base.{
  ℕ, ◌+◌, ◌*◌, ◌^◌, ◌-◌, ◌≤◌, ◌<◌, ◌≡◌, ◌==◌, ltb, if◌then◌else◌, List, [], ◌∷◌, Bytes, length,
  drop, get_elem?, Option, some, none, sub32,
}

-- The instructions of socket_filter.h that the programs use: a load of two bytes, a subtraction, jumps
-- by their two distances, and the end.
pub data Filter : Type 0 where
  ldh sub : (k : ℕ) → Filter
  jeq jgt : (k jt jf : ℕ) → Filter
  ret : (k : ℕ) → Filter

abbrev pub bpf_accept : ℕ
bpf_accept = 2 ^ 32 - 1

abbrev pub bpf_drop : ℕ
bpf_drop = 0

abbrev pub byte_or_0 : Option ℕ → ℕ
byte_or_0 (some b) = b
byte_or_0 none = 0

-- The two bytes at a place of a packet, in the order of the network
abbrev pub half_word : Bytes → ℕ → ℕ
half_word packet k = byte_or_0 (get_elem? packet k) * 2 ^ 8 + byte_or_0 (get_elem? packet (k + 1))

-- What is documented of the filter: the value that a program returns for a packet, from the
-- accumulator it has.
pub record Machine : Type 0 where
  pub run : List Filter → Bytes → ℕ → ℕ
  pub run-ldh :
      (k : ℕ) (rest : List Filter) (packet : Bytes) (a : ℕ)
      → k + 2 ≤ length packet
      → run (ldh k ∷ rest) packet a ≡ run rest packet (half_word packet k)
  pub run-sub :
      (k : ℕ) (rest : List Filter) (packet : Bytes) (a : ℕ)
      → run (sub k ∷ rest) packet a ≡ run rest packet (sub32 a k)
  pub run-jeq :
      (k jt jf : ℕ) (rest : List Filter) (packet : Bytes) (a : ℕ)
      → run (jeq k jt jf ∷ rest) packet a ≡ run (drop (if a == k then jt else jf) rest) packet a
  pub run-jgt :
      (k jt jf : ℕ) (rest : List Filter) (packet : Bytes) (a : ℕ)
      → run (jgt k jt jf ∷ rest) packet a ≡ run (drop (if ltb k a then jt else jf) rest) packet a
  pub run-ret :
      (k : ℕ) (rest : List Filter) (packet : Bytes) (a : ℕ) → run (ret k ∷ rest) packet a ≡ k

-- `sizeof(iphdr) + FIELD_POS(udphdr, dest)`, which passes over no options of IP
abbrev pub dest_pos : ℕ
dest_pos = 20 + 2

unfoldable pub filter_udp_port : ℕ → List Filter
filter_udp_port port = ldh dest_pos ∷ jeq port 1 0 ∷ ret bpf_drop ∷ ret bpf_accept ∷ []

unfoldable pub filter_udp_ports : ℕ → ℕ → List Filter
filter_udp_ports port_start port_end =
    ldh dest_pos
    ∷ sub port_start
    ∷ jgt (sub32 port_end port_start) 0 1
    ∷ ret bpf_drop
    ∷ ret bpf_accept
    ∷ []
