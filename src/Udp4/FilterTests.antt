-- ===== src/Udp4/FilterTests.antt =====
-- The filters at a machine that runs their instructions, and the places of three messages.
use udp_stuff.Base.{
  ℕ, zero, suc, ◌+◌, ◌≡◌, refl, arith, ◌==◌, ltb, leb, if◌then◌else◌, List, [], ◌∷◌, Bytes, length,
  drop, replicate, sub32, true,
}
use udp_stuff.Udp4.Filter.{
  Filter, ldh, sub, jeq, jgt, ret, bpf_accept, bpf_drop, half_word, Machine, filter_udp_port,
  filter_udp_ports,
}
use udp_stuff.Udp4.Filter.Ports.{wire, filter_udp_ports_lem}

-- The second argument is how many instructions are passed over.
run_from : List Filter → ℕ → Bytes → ℕ → ℕ
run_from [] skip packet a = 0
run_from (x ∷ rest) (suc skip) packet a = run_from rest skip packet a
run_from (ldh k ∷ rest) zero packet a =
    if leb (k + 2) (length packet) then run_from rest zero packet (half_word packet k) else 0
run_from (sub k ∷ rest) zero packet a = run_from rest zero packet (sub32 a k)
run_from (jeq k jt jf ∷ rest) zero packet a = run_from rest (if a == k then jt else jf) packet a
run_from (jgt k jt jf ∷ rest) zero packet a = run_from rest (if ltb k a then jt else jf) packet a
run_from (ret k ∷ rest) zero packet a = k

run_from-drop :
    (program : List Filter) (skip : ℕ) (packet : Bytes) (a : ℕ)
    → run_from program skip packet a ≡ run_from (drop skip program) zero packet a
unfolding run_from
run_from-drop [] zero packet a = refl
run_from-drop [] (suc skip) packet a = refl
run_from-drop (x ∷ rest) zero packet a = refl
run_from-drop (x ∷ rest) (suc skip) packet a = run_from-drop rest skip packet a

machine : Machine
unfolding run_from
machine = record {
  run = λ program packet a. run_from program zero packet a;
  run-ldh = λ k rest packet a h.
      let yes' : leb (k + 2) (length packet) ≡ true = ground arith in rw yes' refl;
  run-sub = λ k rest packet a. refl;
  run-jeq = λ k jt jf rest packet a. run_from-drop rest (if a == k then jt else jf) packet a;
  run-jgt = λ k jt jf rest packet a. run_from-drop rest (if ltb k a then jt else jf) packet a;
  run-ret = λ k rest packet a. refl;
}

-- A packet from port 7 for port 300
filter_udp_ports_lem_example :
    (machine.run (filter_udp_port 300) (wire (replicate 20 0) 7 300 (0 ∷ 16 ∷ [])) 0 ≡ bpf_accept)
    × (machine.run (filter_udp_ports 10 50) (wire (replicate 20 0) 7 300 (0 ∷ 16 ∷ [])) 0
        ≡ bpf_drop)
filter_udp_ports_lem_example =
    filter_udp_ports_lem machine (replicate 20 0) (0 ∷ 16 ∷ []) 7 300 300 10 50 refl (omega arith)
      (omega arith) (omega arith)

-- With 4 bytes of options the program loads the port of the sender.
options_mislead :
    machine.run (filter_udp_port 300) (wire (replicate 24 0) 7 300 (0 ∷ 16 ∷ [])) 0 ≡ bpf_drop
unfolding machine run_from filter_udp_port
options_mislead = refl
