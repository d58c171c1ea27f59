-- ===== src/Lock/Scope.antt =====
-- utils/lock/scope.h: the guards that lock a mutex for a scope.
pub mod Once
use udp_stuff.Base.{
  ℕ, zero, suc, ◌+◌, ◌≡◌, List, [], ◌∷◌, ◌++◌, Option, none, some, get_elem?, set, length, Outcome,
  done, throws, fault, hangs, ◌>>=◌,
}

-- The calls that the mutexes get, the last first.
pub data Event : Type 0 where
  lock_c unlock_c : ℕ → Event

-- A guard is the mutex that it points to, or null.
abbrev pub Guard : Type 0
Guard = Option ℕ

pub record World : Type 0 where
  pub guards : List Guard
  pub log : List Event

-- The destructor of `ScopeLock` and `ScopeLockArg`, and the part of it that `clear` guards.
unfoldable pub clear : Guard → List Event → List Event
clear none log = log
clear (some m) log = unlock_c m ∷ log

pub data Op : Type 0 where
  construct : ℕ → Op
  move_construct : ℕ → Op
  move_assign : ℕ → ℕ → Op
  destroy : ℕ → Op

abbrev with_guard : Option Guard → (Guard → Outcome World) → Outcome World
with_guard none f = fault
with_guard (some g) f = f g

-- ScopeLockMovable. A new guard comes at the end of the list; a guard that is gone keeps its place.
unfoldable pub apply : World → Op → Outcome World
unfolding clear
apply w (construct m) = done (record { guards = w.guards ++ some m ∷ []; log = lock_c m ∷ w.log })
apply w (move_construct i) =
    with_guard (get_elem? w.guards i)
      λ g. done (record w { guards = set w.guards i none ++ g ∷ [] })
apply w (move_assign i j) = with_guard (get_elem? w.guards i) λ own.
    with_guard (get_elem? w.guards j)
      λ other. done (record { guards = set (set w.guards i other) j none; log = clear own w.log })
apply w (destroy i) =
    with_guard (get_elem? w.guards i)
      λ g. done (record { guards = set w.guards i none; log = clear g w.log })

unfoldable pub apply_all : World → List Op → Outcome World
unfolding apply
apply_all w [] = done w
apply_all w (op ∷ ops) = apply w op >>= λ v. apply_all v ops

-- The end of the scope.
unfoldable pub destroy_all : List Guard → List Event → List Event
unfolding clear
destroy_all [] log = log
destroy_all (g ∷ gs) log = destroy_all gs (clear g log)

abbrev pub empty : World
empty = record { guards = []; log = [] }

-- ScopeLockArgMovable: its destructor does not look at the pointer.
unfoldable pub destroy_arg : Guard → List Event → Outcome (List Event)
destroy_arg none log = fault
destroy_arg (some m) log = done (unlock_c m ∷ log)

-- A guard of that class that is moved into another one, and the end of the scope of both.
unfoldable pub move_arg : ℕ → List Event → Outcome (List Event)
unfolding destroy_arg
move_arg m log =
    let locked = lock_c m ∷ log in
    let moved : Guard = some m in
    let left : Guard = none in destroy_arg moved locked >>= λ l. destroy_arg left l
