-- ===== src/Buffers/BlockTests.antt =====
-- Runs of `buf_cp` and of the ring of buffer.h, and the theorems at concrete inputs.
use udp_stuff.Base.{◌-◌, ◌^◌, ◌<◌, ◌≡◌, refl, arith, Bytes, [], ◌∷◌, take, drop, min, done, splice}
use udp_stuff.Buffers.Blocks.{buf_cp}
use udp_stuff.Buffers.Blocks.Ptr
use udp_stuff.Buffers.Blocks.Ptr.{PtrBuf}
use udp_stuff.Buffers.Blocks.Static
use udp_stuff.Buffers.Blocks.Static.{StaticBuf}
use udp_stuff.Buffers.Blocks.Copy.{buf_cp_lem, ops-Advances}
use udp_stuff.Buffers.Blocks.Ring.{Ring}

abbrev source : Bytes
source = 1 ∷ 2 ∷ 3 ∷ 4 ∷ []

abbrev target : Bytes
target = 0 ∷ 0 ∷ 0 ∷ 0 ∷ 0 ∷ 0 ∷ []

buf_cp_runs :
    buf_cp Ptr.ops Ptr.ops (Ptr.make 1 3) (Ptr.make 2 2) source target
    ≡ done (record { buf_e = 4; l = 1 }, record { buf_e = 4; l = 0 }, 0 ∷ 0 ∷ 2 ∷ 3 ∷ 0 ∷ 0 ∷ [])
unfolding buf_cp
buf_cp_runs = refl

-- A StaticBuf that is written to has more left than before.
buf_cp_static :
    buf_cp Ptr.ops Static.ops (Ptr.make 0 1) (record { buf_e = 6; l = 4 }) source target
    ≡ done (record { buf_e = 1; l = 0 }, record { buf_e = 6; l = 5 }, 0 ∷ 0 ∷ 1 ∷ 0 ∷ 0 ∷ 0 ∷ [])
unfolding buf_cp
buf_cp_static = refl

buf_cp_lem_example :
    (r : PtrBuf × PtrBuf × Bytes) × (buf_cp Ptr.ops Ptr.ops
        (Ptr.make 1 3)
        (Ptr.make 2 2)
        source
        target
      ≡ done r)
    × (r.2 ≡ splice target 2 (take (min 3 2) (drop 1 source)))
    × (Ptr.left r.0 ≡ 3 - min 3 2)
    × (Ptr.left r.1 ≡ 2 - min 3 2)
buf_cp_lem_example =
    buf_cp_lem Ptr.ops Ptr.ops (λ b. b.l < 2 ^ 32) (λ b. b.l < 2 ^ 32) ops-Advances ops-Advances
      (Ptr.make 1 3) (Ptr.make 2 2) source target (omega arith) (omega arith) (omega arith)
      (omega arith)

abbrev ring : Ring
ring = record { size = 8; b = 3; proc_e = 5; e = 6 }
