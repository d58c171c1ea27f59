-- ===== src/Buffers/Blocks.antt =====
-- buffer.h, with `len_t` as uint32_t, pointers as positions in a memory, and bytes as elements: what
-- the classes have in common, and `buf_cp` between any two of them.
pub mod Ptr
pub mod Static
pub mod Ring
pub mod Copy
use udp_stuff.Base.{ℕ, ltb, if◌then◌else◌, Bytes, Outcome, done, ◌>>=◌, copy_in, copy_out}

-- The operations that `buf_cp` calls
pub record BlockOps (B : Type 0) : Type 0 where
  pub left : B → ℕ
  pub start : B → ℕ
  pub shift : B → ℕ → B
  pub finish : B → B

module _ {A B : Type 0} (ins : BlockOps A) (outs : BlockOps B) where
  -- `memcpy(out.start(), in.start(), n)`, and the two buffers after it
  abbrev copy : A → B → Bytes → Bytes → ℕ → A → B → Outcome (A × B × Bytes)
  copy from to from_memory to_memory n from' to' = do
    bytes ← copy_out from_memory (ins.start from) n
    to_memory' ← copy_in to_memory (outs.start to) bytes
    done (from', to', to_memory')

  unfoldable pub buf_cp : A → B → Bytes → Bytes → Outcome (A × B × Bytes)
  buf_cp from to from_memory to_memory =
      if ltb (ins.left from) (outs.left to)
      then copy from to from_memory to_memory (ins.left from) (ins.finish from)
          (outs.shift to (ins.left from))
      else copy from to from_memory to_memory (outs.left to) (ins.shift from (outs.left to))
          (outs.finish to)
