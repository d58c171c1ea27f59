-- ===== src/Udp4/Filter/Ports.antt =====
-- The filters accept the packets for their ports, and drop the others.
use udp_stuff.Base.{
  ℕ, ◌^◌, ◌≤◌, ◌<◌, ◌≡◌, refl, ◌∙◌, arith, ◌==◌, ltb, leb, ◌&&◌, if◌then◌else◌, true, false, Bool,
  dec_lt, [], ◌∷◌, ◌++◌, get_elem?, zero, suc, ◌+◌, ap, sym, subst, length-append, Bytes, length,
  drop, sub32,
}
use udp_stuff.Udp4.Driver.{be16}
use udp_stuff.Udp4.Filter.{
  ret, bpf_accept, bpf_drop, half_word, Machine, dest_pos, filter_udp_port, filter_udp_ports,
}

module _ (m : Machine) (packet : Bytes) (whole : 24 ≤ length packet) where
  jump_if :
      (c : Bool) (a : ℕ)
      → m.run (drop (if c then 1 else 0) (ret bpf_drop ∷ ret bpf_accept ∷ [])) packet a
        ≡ (if c then bpf_accept else bpf_drop)
  jump_if true a = m.run-ret bpf_accept [] packet a
  jump_if false a = m.run-ret bpf_drop (ret bpf_accept ∷ []) packet a

  jump_unless :
      (c : Bool) (a : ℕ)
      → m.run (drop (if c then 0 else 1) (ret bpf_drop ∷ ret bpf_accept ∷ [])) packet a
        ≡ (if c then bpf_drop else bpf_accept)
  jump_unless true a = m.run-ret bpf_drop (ret bpf_accept ∷ []) packet a
  jump_unless false a = m.run-ret bpf_accept [] packet a

  -- What the programs load
  abbrev dest_port : ℕ
  dest_port = half_word packet dest_pos

  -- The test that the program makes of the port, after the subtraction
  in_range :
      (port_start port_end : ℕ)
      → port_start ≤ port_end
      → port_end < 2 ^ 16
      → dest_port < 2 ^ 16
      → (if ltb (sub32 port_end port_start) (sub32 dest_port port_start)
          then bpf_drop
          else bpf_accept)
        ≡ (if leb port_start dest_port && leb dest_port port_end then bpf_accept else bpf_drop)
  in_range port_start port_end le word small = elim (dec_lt dest_port port_start) [
    | yes below ↦
        let a : ltb (sub32 port_end port_start) (sub32 dest_port port_start) ≡ true =
          ground arith in
        let b : leb port_start dest_port ≡ false = ground arith in rw a (rw b refl)
    | no inside ↦ elim (dec_lt port_end dest_port) [
      | yes above ↦
          let a : ltb (sub32 port_end port_start) (sub32 dest_port port_start) ≡ true =
            ground arith in
          let b : leb port_start dest_port ≡ true = ground arith in
          let c : leb dest_port port_end ≡ false = ground arith in rw a (rw b (rw c refl))
      | no within ↦
          let a : ltb (sub32 port_end port_start) (sub32 dest_port port_start) ≡ false =
            ground arith in
          let b : leb port_start dest_port ≡ true = ground arith in
          let c : leb dest_port port_end ≡ true = ground arith in rw a (rw b (rw c refl))
    ]
  ]

  loaded_lem :
      (port port_start port_end : ℕ)
      → port_start ≤ port_end
      → port_end < 2 ^ 16
      → dest_port < 2 ^ 16
      → (m.run (filter_udp_port port) packet 0
          ≡ (if dest_port == port then bpf_accept else bpf_drop))
        × (m.run (filter_udp_ports port_start port_end) packet 0
            ≡ (if leb port_start dest_port && leb dest_port port_end then bpf_accept else bpf_drop))
  unfolding filter_udp_port filter_udp_ports
  loaded_lem port port_start port_end le word small = (
    m.run-ldh dest_pos _ packet 0 (omega arith)
        ∙ m.run-jeq port 1 0 _ packet dest_port
        ∙ jump_if (dest_port == port) dest_port,
    m.run-ldh dest_pos _ packet 0 (omega arith)
        ∙ m.run-sub port_start _ packet dest_port
        ∙ m.run-jgt (sub32 port_end port_start) 0 1 _ packet (sub32 dest_port port_start)
        ∙ jump_unless (ltb (sub32 port_end port_start) (sub32 dest_port port_start))
            (sub32 dest_port port_start)
        ∙ in_range port_start port_end le word small,
  )

-- A packet as it is on the wire: a header of IP with no options, which has 20 bytes, and that of UDP,
-- which begins with the port of the sender and the port it is for, their high bytes first.
abbrev pub wire : Bytes → ℕ → ℕ → Bytes → Bytes
wire ip source dest rest = ip ++ (be16 source ++ (be16 dest ++ rest))

get_elem?-append :
    (xs ys : Bytes) (i k : ℕ) → k ≡ length xs + i → get_elem? (xs ++ ys) k ≡ get_elem? ys i
get_elem?-append [] ys i k e = let same : k ≡ i = omega arith in ap (get_elem? ys) same
get_elem?-append (x ∷ xs) ys i zero e = absurd (omega arith)
get_elem?-append (x ∷ xs) ys i (suc k) e = get_elem?-append xs ys i k (omega arith)

wire-dest :
    (ip : Bytes) (source dest : ℕ) (rest : Bytes)
    → length ip ≡ 20
    → dest < 2 ^ 16
    → half_word (wire ip source dest rest) dest_pos ≡ dest
wire-dest ip source dest rest header word =
    let high = get_elem?-append ip (be16 source ++ (be16 dest ++ rest)) 2 22 (omega arith) in
    let low = get_elem?-append ip (be16 source ++ (be16 dest ++ rest)) 3 23 (omega arith) in
    rw (high, low) (omega arith)

-- For a packet with no options of IP and the ports `source` and `dest`, the filters of filter_udp_port
-- return `BPF_ACCEPT` if `dest` is the port, or a port of the range with its ends, and `BPF_DROP`
-- otherwise.
pub filter_udp_ports_lem :
    (m : Machine) (ip rest : Bytes) (source dest port port_start port_end : ℕ)
    → length ip ≡ 20
    → dest < 2 ^ 16
    → port_start ≤ port_end
    → port_end < 2 ^ 16
    → (m.run (filter_udp_port port) (wire ip source dest rest) 0
        ≡ (if dest == port then bpf_accept else bpf_drop))
      × (m.run (filter_udp_ports port_start port_end) (wire ip source dest rest) 0
          ≡ (if leb port_start dest && leb dest port_end then bpf_accept else bpf_drop))
filter_udp_ports_lem m ip rest source dest port port_start port_end header word le end_word =
    let packet = wire ip source dest rest in
    let found = wire-dest ip source dest rest header word in
    let whole : 24 ≤ length packet =
      omega (arith, length-append ip (be16 source ++ (be16 dest ++ rest))) in
    let r =
      loaded_lem m packet whole port port_start port_end le end_word
        (subst (λ k. k < 2 ^ 16) (sym found) word) in
    subst
      (λ k.
        (m.run (filter_udp_port port) packet 0 ≡ (if k == port then bpf_accept else bpf_drop))
        × (m.run (filter_udp_ports port_start port_end) packet 0
            ≡ (if leb port_start k && leb k port_end then bpf_accept else bpf_drop)))
      found r
