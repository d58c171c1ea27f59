-- ===== src/Net/Tests.antt =====
-- The theorems on the hole punch at two tries, with times in milliseconds, and on guards.
use udp_stuff.Base.{
  ℕ, zero, suc, ◌+◌, ◌*◌, ◌≡◌, refl, ltb, Bool, true, false, List, [], ◌∷◌, none, some,
}
use udp_stuff.Base.{done}
use udp_stuff.Lock.Threads.{total}
use udp_stuff.Net.Guard.{
  World, owned, given_back, handed_out, Op, construct, move_construct, move_assign, handle,
  apply_common, assign_socket, assign_pointer, apply_socket, apply_pointer, apply_all, destroy_all,
  empty,
}
use udp_stuff.Net.Guard.Once.{taken_over, let_go, destroy_all-once}
use udp_stuff.Net.Punch.{
  opened, bound, listens, connects, closed, Accepted, Try, HolePunchSettings, accept_peer,
  use_socket, one_try, punch, hole_punch,
}
use udp_stuff.Net.Punch.Sockets.{opens, closes, left_open, hole_punch-left_open}
use udp_stuff.Net.Punch.Ends.{first_exit, hole_punch_lem}
use udp_stuff.Net.Punch.Connects.{FirstConnects}

abbrev more_than : ℕ → ℕ → Bool
more_than a b = ltb b a

abbrev settings : HolePunchSettings ℕ ◌*◌ more_than
settings = record {
  src_port = 4000;
  src_addr = 0x0a000001;
  dst_port = 5000;
  dst_addr = 0x0a000002;
  listen_first = true;
  connect_sec_start = 100;
  connect_sec_max = 150;
  connect_sec_scale = 2;
  connect_count = 4;
}

abbrev peer : Accepted
peer = record { new_fd = 9; addr = 0x0a000002; port = 5000 }

-- Nobody comes in the first try, and in the second the peer answers.
abbrev answers : ℕ → Try
answers zero = record {
  socket = some 3;
  bind = true;
  timeout = true;
  listen = true;
  accept = none;
  connect = false;
}
answers (suc i) = record {
  socket = some 4;
  bind = true;
  timeout = true;
  listen = true;
  accept = some peer;
  connect = true;
}

-- The address that is bound is 1, not the one of the settings.
hole_punch_runs :
    (hole_punch ℕ ◌*◌ more_than settings answers).log
    ≡ connects 4 5000 0x0a000002
      ∷ bound 4 4000 1
      ∷ opened 4
      ∷ closed 3
      ∷ listens 3
      ∷ bound 3 4000 1
      ∷ opened 3
      ∷ []
unfolding hole_punch punch one_try use_socket accept_peer
hole_punch_runs = refl

hole_punch-left_open_example :
    opens 4 (hole_punch ℕ ◌*◌ more_than settings answers).log
    ≡ closes 4 (hole_punch ℕ ◌*◌ more_than settings answers).log
      + left_open 4 (hole_punch ℕ ◌*◌ more_than settings answers).exit
hole_punch-left_open_example = hole_punch-left_open ℕ ◌*◌ more_than settings 4 answers

hole_punch_lem_example :
    (hole_punch ℕ ◌*◌ more_than settings answers).exit
    ≡ first_exit ℕ ◌*◌ more_than settings answers 4 0 true
hole_punch_lem_example = hole_punch_lem ℕ ◌*◌ more_than settings answers

second_connects : FirstConnects ℕ ◌*◌ more_than settings answers 0 true 1 4
second_connects = ((3, (refl, refl, refl), refl, refl), ((refl, refl, refl), refl))

-- A guard is moved, assigned to itself, and asked for its handle, and another is assigned.
abbrev moves : List Op
moves =
    construct (some 5)
    ∷ move_construct 0
    ∷ move_assign 1 1
    ∷ construct (some 6)
    ∷ move_assign 1 2
    ∷ handle 1
    ∷ []

abbrev moved : World
moved = record {
  guards = none ∷ none ∷ none ∷ [];
  log = handed_out 6 ∷ owned 6 ∷ given_back 5 ∷ owned 5 ∷ [];
}

moves_sockets : apply_all apply_socket empty moves ≡ done moved
unfolding apply_all apply_socket apply_common assign_socket
moves_sockets = refl

moves_pointers : apply_all apply_pointer empty moves ≡ done moved
unfolding apply_all apply_pointer apply_common assign_pointer
moves_pointers = refl

destroy_all-once_example :
    (total (taken_over 5) (destroy_all moved.guards moved.log)
      ≡ total (let_go 5) (destroy_all moved.guards moved.log))
    × (total (taken_over 5) (destroy_all moved.guards moved.log)
        ≡ total (let_go 5) (destroy_all moved.guards moved.log))
destroy_all-once_example = destroy_all-once 5 moves moved moved moves_sockets moves_pointers
