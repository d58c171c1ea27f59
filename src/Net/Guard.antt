-- ===== src/Net/Guard.antt =====
-- net/socket.h, `SocketGuard`, and utils/common.h, `GuardPointer`: objects that own a handle.
pub mod Once
use udp_stuff.Base.{
  ℕ, ◌+◌, List, [], ◌∷◌, ◌++◌, Option, none, some, get_elem?, set, Outcome, done, fault, ◌>>=◌,
}

-- What happens to handles, the last first: a guard takes one over, gives it back (close, free), or
-- hands it out.
pub data Event : Type 0 where
  owned given_back handed_out : ℕ → Event

-- A negative descriptor, or a null pointer, is `none`.
pub record World : Type 0 where
  pub guards : List (Option ℕ)
  pub log : List Event

abbrev pub give_back : Option ℕ → List Event → List Event
give_back none log = log
give_back (some h) log = given_back h ∷ log

abbrev pub hand_out : Option ℕ → List Event → List Event
hand_out none log = log
hand_out (some h) log = handed_out h ∷ log

abbrev pub own : Option ℕ → List Event → List Event
own none log = log
own (some h) log = owned h ∷ log

abbrev pub at_guard : Option (Option ℕ) → (Option ℕ → Outcome World) → Outcome World
at_guard none f = fault
at_guard (some g) f = f g

pub data Op : Type 0 where
  construct : Option ℕ → Op
  move_construct : ℕ → Op
  move_assign : ℕ → ℕ → Op
  handle : ℕ → Op
  destroy : ℕ → Op

-- The operations that both classes have. A guard that is gone keeps its place.
unfoldable pub apply_common : World → Op → (ℕ → ℕ → Outcome World) → Outcome World
apply_common w (construct h) assign =
    done (record { guards = w.guards ++ h ∷ []; log = own h w.log })
apply_common w (move_construct i) assign =
    at_guard (get_elem? w.guards i)
      λ g. done (record { guards = set w.guards i none ++ g ∷ []; log = w.log })
apply_common w (move_assign i j) assign = assign i j
apply_common w (handle i) assign =
    at_guard (get_elem? w.guards i)
      λ g. done (record { guards = set w.guards i none; log = hand_out g w.log })
apply_common w (destroy i) assign =
    at_guard (get_elem? w.guards i)
      λ g. done (record { guards = set w.guards i none; log = give_back g w.log })

-- `SocketGuard::operator=`: clear, and then the other's handle, which is gone if it is the same.
unfoldable pub assign_socket : World → ℕ → ℕ → Outcome World
assign_socket w i j = at_guard (get_elem? w.guards i) λ g.
    at_guard (get_elem? (set w.guards i none) j) λ h.
      done (record { guards = set (set (set w.guards i none) j none) i h; log = give_back g w.log })

-- `GuardPointer::operator=`: the other pointer is copied and then set to null.
unfoldable pub assign_pointer : World → ℕ → ℕ → Outcome World
assign_pointer w i j = at_guard (get_elem? w.guards i) λ g.
    at_guard (get_elem? w.guards j)
      λ h. done (record { guards = set (set w.guards i h) j none; log = give_back g w.log })

unfoldable pub apply_socket : World → Op → Outcome World
unfolding apply_common assign_socket
apply_socket w op = apply_common w op (assign_socket w)

unfoldable pub apply_pointer : World → Op → Outcome World
unfolding apply_common assign_pointer
apply_pointer w op = apply_common w op (assign_pointer w)

module _ (apply : World → Op → Outcome World) where
  unfoldable pub apply_all : World → List Op → Outcome World
  apply_all w [] = done w
  apply_all w (op ∷ ops) = apply w op >>= λ v. apply_all v ops

-- The end of the scope
unfoldable pub destroy_all : List (Option ℕ) → List Event → List Event
destroy_all [] log = log
destroy_all (g ∷ gs) log = destroy_all gs (give_back g log)

abbrev pub empty : World
empty = record { guards = []; log = [] }
