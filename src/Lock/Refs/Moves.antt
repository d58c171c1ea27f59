-- ===== src/Lock/Refs/Moves.antt =====
-- Assignments of references.
use udp_stuff.Base.{
  ℕ, zero, suc, ◌≡◌, refl, ap, List, [], ◌∷◌, Option, none, some, get_elem?, set, Outcome, done,
  throws, fault, hangs, ◌>>=◌,
}
use udp_stuff.Base.{get_elem?-set_same}
use udp_stuff.Lock.Refs.{Store, inc_ref, release, var, clear, copy_assign}

set-set : (vs : List (Option ℕ)) (i : ℕ) (p q : Option ℕ) → set (set vs i p) i q ≡ set vs i q
set-set [] i p q = refl
set-set (v ∷ vs) zero p q = refl
set-set (v ∷ vs) (suc i) p q = ap (λ t. v ∷ t) (set-set vs i p q)

abbrev cleared : Store → ℕ → List (ℕ × ℕ) → Outcome Store
cleared s i objects = done (record { objects = objects; vars = set s.vars i none })

-- What the assignment does after the `clear`.
abbrev points : ℕ → Store → Outcome Store
points i t = do
  p ← var t i
  objects ← inc_ref p t.objects
  done (record { objects = objects; vars = set t.vars i p })

points_lem :
    (s : Store) (i : ℕ) (r : Outcome (List (ℕ × ℕ)))
    → get_elem? (set s.vars i none) i ≡ some none
    → ((r >>= cleared s i) >>= points i) ≡ (r >>= cleared s i)
unfolding inc_ref
points_lem s i (done objects) e = rw (e, set-set s.vars i none none) refl
points_lem s i (throws x) e = refl
points_lem s i fault e = refl
points_lem s i hangs e = refl

-- `r = r` is not without effect: it does what `clear` of `r` does, so the reference is lost, and the object is
-- deleted if there was no other.
pub copy_assign_self :
    (s : Store) (i : ℕ) (p : Option ℕ) → get_elem? s.vars i ≡ some p → copy_assign s i i ≡ clear s i
unfolding copy_assign clear
copy_assign_self s i p e =
    rw e (points_lem s i (release p s.objects) (get_elem?-set_same s.vars i p none e))
