-- ===== src/Buffers/Blocks/Copy.antt =====
-- What `buf_cp` copies, for buffers that go on by what they are shifted.
use udp_stuff.Base.{
  ℕ, ◌+◌, ◌-◌, ◌≡◌, ◌≤◌, ◌<◌, ◌^◌, refl, arith, ltb, Bytes, length, take, drop, min, done, splice,
  copy_in-inside, copy_out-inside, length-take, Bool-cases, inl, inr,
}
use udp_stuff.Buffers.Blocks.{BlockOps, buf_cp}
use udp_stuff.Buffers.Blocks.Ptr

-- Shifting a buffer by no more than is left takes that off what is left, and finishing leaves nothing.
pub record Advances {B : Type 0} (ops : BlockOps B) (Ok : B → Type 0) : Type 0 where
  pub left-shift :
      (b : B) (n : ℕ) → Ok b → n ≤ ops.left b → ops.left (ops.shift b n) ≡ ops.left b - n
  pub left-finish : (b : B) → ops.left (ops.finish b) ≡ 0

fits : (i n : ℕ) (buf : Bytes) → length (take n (drop i buf)) ≤ n
fits i n buf = omega (arith, length-take n (drop i buf))

module _ {A B : Type 0} (ins : BlockOps A) (outs : BlockOps B) (OkA : A → Type 0)
    (OkB : B → Type 0) where
  module _ (from_moves : Advances ins OkA) (to_moves : Advances outs OkB) where
    -- `buf_cp` copies as many bytes as both buffers have left, to the place and from the place where
    -- they are, and both have that much less left.
    pub buf_cp_lem :
        (from : A) (to : B) (from_memory to_memory : Bytes)
        → OkA from
        → OkB to
        → ins.start from + ins.left from ≤ length from_memory
        → outs.start to + outs.left to ≤ length to_memory
        → (r : A × B × Bytes) × (buf_cp ins outs from to from_memory to_memory ≡ done r)
          × (r.2
              ≡ splice to_memory
                  (outs.start to)
                  (take (min (ins.left from) (outs.left to)) (drop (ins.start from) from_memory)))
          × (ins.left r.0 ≡ ins.left from - min (ins.left from) (outs.left to))
          × (outs.left r.1 ≡ outs.left to - min (ins.left from) (outs.left to))
    unfolding buf_cp
    buf_cp_lem from to from_memory to_memory oka okb inside room =
        elim (Bool-cases (ltb (ins.left from) (outs.left to))) [
          | inl less ↦
              let n : min (ins.left from) (outs.left to) ≡ ins.left from = ground (arith, less) in
              let bytes = take (ins.left from) (drop (ins.start from) from_memory) in
              (
                (
                  ins.finish from,
                  outs.shift to (ins.left from),
                  splice to_memory (outs.start to) bytes,
                ),
                rw less (
                    rw (copy_out-inside from_memory (ins.start from) (ins.left from) inside) (
                      rw
                        (copy_in-inside to_memory (outs.start to) bytes
                          (ground (arith, less, fits (ins.start from) (ins.left from) from_memory)))
                        refl)),
                rw n refl,
                omega (arith, n, from_moves.left-finish from),
                omega (arith, n, to_moves.left-shift to (ins.left from) okb (ground (arith, less))),
              )
          | inr more ↦
              let n : min (ins.left from) (outs.left to) ≡ outs.left to = ground (arith, more) in
              let bytes = take (outs.left to) (drop (ins.start from) from_memory) in
              (
                (
                  ins.shift from (outs.left to),
                  outs.finish to,
                  splice to_memory (outs.start to) bytes,
                ),
                rw more (
                    rw
                      (copy_out-inside from_memory (ins.start from) (outs.left to)
                        (ground (arith, more)))
                      (rw
                        (copy_in-inside to_memory (outs.start to) bytes
                          (ground (arith, more, fits (ins.start from) (outs.left to) from_memory)))
                        refl)),
                rw n refl,
                omega (
                  arith,
                  n,
                  from_moves.left-shift from (outs.left to) oka (ground (arith, more)),
                ),
                omega (arith, n, to_moves.left-finish to),
              )
        ]

-- PtrBuf goes on by what it is shifted.
pub ops-Advances : Advances Ptr.ops (λ b. b.l < 2 ^ 32)
ops-Advances = record { left-shift = λ b n ok le. omega arith; left-finish = λ b. refl }
