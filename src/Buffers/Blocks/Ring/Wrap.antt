-- ===== src/Buffers/Blocks/Ring/Wrap.antt =====
-- What a ring holds after it is filled and emptied.
use udp_stuff.Base.{
  ℕ, ◌+◌, ◌-◌, ◌≡◌, ◌≤◌, ◌<◌, arith, leb, if◌then◌else◌, Bool-cases, inl, inr, ◌⊎◌, true,
}
use udp_stuff.Buffers.Blocks.Ring.{Ring}
use udp_stuff.Buffers.Blocks.Ring.In

-- The positions are in the ring.
pub record Within (q : Ring) : Type 0 where
  pub b_in : q.b < q.size
  pub e_in : q.e < q.size

-- The number of elements between `b` and `e`
abbrev pub held : Ring → ℕ
held q = if leb q.b q.e then q.e - q.b else q.size - q.b + q.e

-- Filling by `s` elements, no more than are free, adds them and stays in the ring, unless the ring is
-- filled to its end with `b` at its beginning.
pub shift_lem :
    (q : Ring) (s : ℕ)
    → Within q
    → s ≤ In.left q
    → (q.e + s < q.size) ⊎ (0 < q.b)
    → Within (In.shift q s) × (held (In.shift q s) ≡ held q + s)
unfolding In.left In.shift
shift_lem q s w le room = elim (Bool-cases (leb q.size (q.e + s))) [
  | inl past ↦ rw past (
    record { b_in = w.b_in; e_in = ground (arith, past) },
    ground (arith, past, le, room, w.b_in, w.e_in),
  )
  | inr inside ↦ rw inside (
    record { b_in = w.b_in; e_in = ground (arith, inside) },
    ground (arith, inside, le, room, w.b_in, w.e_in),
  )
]

-- A ring with `b` at its beginning that is filled to its end counts as empty.
pub shift-left_full : (q : Ring) → Within q → q.b ≡ 0 → held (In.shift q (In.left q)) ≡ 0
unfolding In.shift In.left
shift-left_full q w zero_b =
    let all : In.left q ≡ q.size - q.e = ground (arith, zero_b) in
    let past : leb q.size (q.e + (q.size - q.e)) ≡ true = ground (arith, w.e_in) in
    rw all (rw past (ground (arith, zero_b)))
