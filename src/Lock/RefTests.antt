-- ===== src/Lock/RefTests.antt =====
-- An object with a variable and a reference elsewhere, which a second variable copies.
use udp_stuff.Base.{
  ℕ, ◌+◌, ◌^◌, ◌<◌, ◌≡◌, refl, arith, ◌==◌, Bool-cases, inl, inr, find, [], ◌∷◌, none, some, length,
  done,
}
use udp_stuff.Net.Guard.Once.{holds}
use udp_stuff.Lock.Refs.{Store, copy_assigns, apply}
use udp_stuff.Lock.Refs.Counted.{Kept, apply-Kept}

abbrev shared : Store
shared = record { objects = (5, 2) ∷ []; vars = some 5 ∷ none ∷ [] }

abbrev elsewhere : ℕ → ℕ
elsewhere o = holds o (some 5)

shared-Kept : Kept elsewhere shared
unfolding find
shared-Kept o = elim (Bool-cases (5 == o)) [
  | inl equal ↦ rw equal refl
  | inr differ ↦ rw differ refl
]

shared_few : (o : ℕ) → elsewhere o + length shared.vars + 1 < 2 ^ 32
shared_few o = ground arith

copied :
    apply shared (copy_assigns 1 0)
    ≡ done (record { objects = (5, 3) ∷ []; vars = some 5 ∷ some 5 ∷ [] })
unfolding apply
copied = refl

apply-Kept_example : (t : Store) × (apply shared (copy_assigns 1 0) ≡ done t) × Kept elsewhere t
apply-Kept_example =
    apply-Kept elsewhere shared shared_few shared-Kept (copy_assigns 1 0)
      ((none, refl), (some 5, refl))
