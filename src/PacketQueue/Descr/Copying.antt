-- ===== src/PacketQueue/Descr/Copying.antt =====
-- What the constructors of `PacketDescr` make.
use udp_stuff.Base.{
  ℕ, ◌≤◌, ◌≡◌, ◌≢◌, ◌⊎◌, inl, inr, arith, Bool, true, false, some, length, take, length-take, Bytes,
  done, throws, bad_alloc, Bool-cases, ℕ_discrete,
}
use udp_stuff.PacketQueue.Descr.{PacketDescr, empty, make, copy, IsFull}

-- A descriptor of data that is there owns a copy of `size` bytes of it; without memory the
-- constructor throws, and a size of 0 takes no memory.
pub make_lem :
    (malloc : ℕ → Bool) (size : ℕ) (src : Bytes)
    → size ≤ length src
    → ((size ≡ 0) × (make malloc size src ≡ done empty))
      ⊎ ((size ≢ 0)
          × (malloc size ≡ true)
          × (make malloc size src ≡ done (record { size = size; block = some (take size src) }))
          × (length (take size src) ≡ size))
      ⊎ ((size ≢ 0) × (malloc size ≡ false) × (make malloc size src ≡ throws bad_alloc))
unfolding make
make_lem malloc size src h = elim (ℕ_discrete size 0) [
  | yes no_size ↦ inl (no_size, ground arith)
  | no sized ↦ elim (Bool-cases (malloc size)) [
    | inl ok ↦ inr (inl (sized, ok, ground arith, omega (arith, length-take size src)))
    | inr out ↦ inr (inr (sized, out, ground arith))
  ]
]

-- The copy of a packet that owns its bytes is made, if memory allows, and is the empty packet
-- whatever the original holds.
pub copy-eq-empty :
    (malloc : ℕ → Bool) (d : PacketDescr)
    → IsFull d
    → malloc d.size ≡ true
    → copy malloc d ≡ done empty
unfolding copy make
copy-eq-empty malloc d f ok = elim f.owns [ inl e ↦ ground arith | inr (b, e, l) ↦ ground arith ]
