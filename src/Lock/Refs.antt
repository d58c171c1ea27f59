-- ===== src/Lock/Refs.antt =====
-- utils/lock/refs.h: objects with a count of references, and the pointers that keep it.
pub mod Counted
pub mod Moves
use udp_stuff.Base.{
  ℕ, zero, suc, ◌+◌, ◌-◌, ◌%◌, ◌^◌, ◌==◌, if◌then◌else◌, Bool, true, false, List, [], ◌∷◌, ◌++◌,
  Option, none, some, get_elem?, set, find, assign, erase, sub32, u32, Outcome, done, throws, fault,
  hangs, ◌>>=◌,
}

-- The objects that are there, with the word of their `ref_count`, and the variables of type `Ref<To>`.
pub record Store : Type 0 where
  pub objects : List (ℕ × ℕ)
  pub vars : List (Option ℕ)

-- `atomic_add(&ref_count, 1)`, of an object that may be gone.
unfoldable pub inc_ref : Option ℕ → List (ℕ × ℕ) → Outcome (List (ℕ × ℕ))
unfolding find assign
inc_ref none objects = done objects
inc_ref (some o) objects = elim (find o objects) [
  | none ↦ fault
  | some n ↦ done (assign o (u32 (n + 1)) objects)
]

-- `clear`: the object is deleted with its last reference.
unfoldable pub release : Option ℕ → List (ℕ × ℕ) → Outcome (List (ℕ × ℕ))
unfolding find assign erase
release none objects = done objects
release (some o) objects = elim (find o objects) [
  | none ↦ fault
  | some n ↦ if sub32 n 1 == 0 then done (erase o objects) else done (assign o (sub32 n 1) objects)
]

abbrev pub at_var : Option (Option ℕ) → Outcome (Option ℕ)
at_var none = fault
at_var (some p) = done p

abbrev pub var : Store → ℕ → Outcome (Option ℕ)
var s i = at_var (get_elem? s.vars i)

-- A new object, whose constructor's caller has the first reference.
unfoldable pub new_object : ℕ → Store → Store
unfolding assign
new_object o s = record s { objects = assign o 1 s.objects }

unfoldable pub clear : Store → ℕ → Outcome Store
unfolding release
clear s i = do
  p ← var s i
  objects ← release p s.objects
  done (record { objects = objects; vars = set s.vars i none })

-- `operator=(const Ref &)`: `other.ptr` is read after the `clear`.
unfoldable pub copy_assign : Store → ℕ → ℕ → Outcome Store
unfolding clear inc_ref
copy_assign s i j = do
  t ← clear s i
  p ← var t j
  objects ← inc_ref p t.objects
  done (record { objects = objects; vars = set t.vars i p })

-- `operator=(Ref &&)`
unfoldable pub move_assign : Store → ℕ → ℕ → Outcome Store
unfolding clear
move_assign s i j = do
  t ← clear s i
  p ← var t j
  done (record t { vars = set (set t.vars i p) j none })

-- The constructors: the new variable is behind the others.
unfoldable pub construct : Store → Option ℕ → Outcome Store
unfolding inc_ref
construct s p = do
  objects ← inc_ref p s.objects
  done (record { objects = objects; vars = s.vars ++ p ∷ [] })

unfoldable pub copy_construct : Store → ℕ → Outcome Store
unfolding construct
copy_construct s j = do p ← var s j; construct s p

unfoldable pub move_construct : Store → ℕ → Outcome Store
move_construct s j = do p ← var s j; done (record s { vars = set s.vars j none ++ p ∷ [] })

-- The operations of `Ref`; a destructor only clears, and the variable keeps its place.
pub data Op : Type 0 where
  constructs : Option ℕ → Op
  copies moves : ℕ → Op
  clears : ℕ → Op
  copy_assigns move_assigns : ℕ → ℕ → Op

unfoldable pub apply : Store → Op → Outcome Store
unfolding construct copy_construct move_construct clear copy_assign move_assign
apply s (constructs p) = construct s p
apply s (copies j) = copy_construct s j
apply s (moves j) = move_construct s j
apply s (clears i) = clear s i
apply s (copy_assigns i j) = copy_assign s i j
apply s (move_assigns i j) = move_assign s i j
