-- ===== src/ChainedBuffer/Tests.antt =====
-- A chain of a header, a vector and an array.
use udp_stuff.Base.{◌≡◌, arith, [], ◌∷◌, done}
use udp_stuff.ChainedBuffer.{
  ChainedBuffer, struct_buffer, vector_chained_buffer, array_init_buffer, vector_insert,
}
use udp_stuff.ChainedBuffer.Order.{vector_insert-wire}

abbrev chain : ChainedBuffer
chain =
    struct_buffer (vector_chained_buffer (array_init_buffer (5 ∷ 6 ∷ 7 ∷ []) 2) (3 ∷ 4 ∷ []))
      (1 ∷ 2 ∷ [])

vector_insert_example : vector_insert chain (9 ∷ []) ≡ done (9 ∷ 1 ∷ 2 ∷ 3 ∷ 4 ∷ 5 ∷ 6 ∷ [])
vector_insert_example = vector_insert-wire chain (9 ∷ []) (omega arith)
