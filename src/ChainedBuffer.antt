-- ===== src/ChainedBuffer.antt =====
-- chained_buffer.h: buffers in front of one another. A structure is the list of its bytes.
pub mod Order
mod Tests
use udp_stuff.Base.{
  ℕ, List, [], ◌∷◌, ◌++◌, length, take, Bytes, Outcome, done, throws, fault, runtime_error, ◌>>=◌,
}
use udp_stuff.PacketQueue.Descr.{read_bytes}

-- The classes, each with the buffer behind it; an array buffer has its memory and `buf_size`.
pub data ChainedBuffer : Type 0 where
  base : ChainedBuffer
  struct_buffer : ChainedBuffer → (struct_ : Bytes) → ChainedBuffer
  struct_init_buffer : (struct_ : Bytes) → ChainedBuffer
  vector_chained_buffer : ChainedBuffer → (vv : Bytes) → ChainedBuffer
  array_chained_buffer : ChainedBuffer → (buf : Bytes) → (buf_size : ℕ) → ChainedBuffer
  array_init_buffer : (buf : Bytes) → (buf_size : ℕ) → ChainedBuffer

-- The result is `v` after the call.
unfoldable pub vector_insert : ChainedBuffer → Bytes → Outcome Bytes
vector_insert base v = throws runtime_error
vector_insert (struct_buffer parent struct_) v = vector_insert parent (v ++ struct_)
vector_insert (struct_init_buffer struct_) v = done (v ++ struct_)
vector_insert (vector_chained_buffer parent vv) v = vector_insert parent (v ++ vv)
vector_insert (array_chained_buffer parent buf buf_size) v =
    let rest = λ (b : Bytes). vector_insert parent (v ++ b) in read_bytes buf_size buf >>= rest
vector_insert (array_init_buffer buf buf_size) v = read_bytes buf_size buf >>= λ b. done (v ++ b)
