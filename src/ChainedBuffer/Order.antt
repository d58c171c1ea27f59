-- ===== src/ChainedBuffer/Order.antt =====
-- A chain appends its bytes, the outermost buffer's first.
use udp_stuff.Base.{◌≤◌, ◌≡◌, refl, arith, [], ◌++◌, append_assoc, length, take, Bytes, done, ◌∙◌}
use udp_stuff.ChainedBuffer.{
  ChainedBuffer, base, struct_buffer, struct_init_buffer, vector_chained_buffer,
  array_chained_buffer, array_init_buffer, vector_insert,
}

-- The bytes of a chain in the order in which they go on the wire.
abbrev pub wire : ChainedBuffer → Bytes
wire base = []
wire (struct_buffer parent struct_) = struct_ ++ wire parent
wire (struct_init_buffer struct_) = struct_
wire (vector_chained_buffer parent vv) = vv ++ wire parent
wire (array_chained_buffer parent buf buf_size) = take buf_size buf ++ wire parent
wire (array_init_buffer buf buf_size) = take buf_size buf

-- The chain ends in a buffer with no parent, and its arrays are as long as they say.
abbrev pub IsComplete : ChainedBuffer → Type 0
IsComplete base = ⊥
IsComplete (struct_buffer parent struct_) = IsComplete parent
IsComplete (struct_init_buffer struct_) = Unit
IsComplete (vector_chained_buffer parent vv) = IsComplete parent
IsComplete (array_chained_buffer parent buf buf_size) = (buf_size ≤ length buf) × IsComplete parent
IsComplete (array_init_buffer buf buf_size) = buf_size ≤ length buf

-- A complete chain appends its bytes to the vector, the outermost buffer's first, and leaves what
-- the vector held.
pub vector_insert-wire :
    (c : ChainedBuffer) (v : Bytes) → IsComplete c → vector_insert c v ≡ done (v ++ wire c)
unfolding vector_insert
vector_insert-wire base v h = absurd h
vector_insert-wire (struct_buffer parent struct_) v h =
    vector_insert-wire parent (v ++ struct_) h ∙ rw append_assoc
vector_insert-wire (struct_init_buffer struct_) v h = refl
vector_insert-wire (vector_chained_buffer parent vv) v h =
    vector_insert-wire parent (v ++ vv) h ∙ rw append_assoc
vector_insert-wire (array_chained_buffer parent buf buf_size) v h = ground (
  arith,
  vector_insert-wire parent (v ++ take buf_size buf) h.1,
  append_assoc v (take buf_size buf) (wire parent),
)
vector_insert-wire (array_init_buffer buf buf_size) v h = ground arith
