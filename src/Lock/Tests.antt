-- ===== src/Lock/Tests.antt =====
-- Two threads at a lock, with and without late stores, guards that move, and a reference assigned to itself.
use udp_stuff.Base.{ℕ, ◌≤◌, Bool, true, false, ◌≡◌, refl, List, [], ◌∷◌, none, some, set, done}
use udp_stuff.Lock.Simple.{
  World, Pc, idle, wait_enter, wait_call, release, late_store, check_waiters, left, leave, critical,
  first_fails, enters, falls_asleep, calls_unlock, releases, reads_early, stores_late, asleep,
  try_first, Reaches, start, then, calls_lock, first_locks, At, initial, move,
}
use udp_stuff.Lock.Simple.Exclusion.{Reaches-one_holder}
use udp_stuff.Lock.Simple.Waking.{on_way}
use udp_stuff.Lock.Simple.Waking.Runs.{one-zero, Reaches-someone_awake}
use udp_stuff.Lock.Scope
use udp_stuff.Lock.Refs.{Store, copy_assign}

abbrev calling : World
calling = move (initial 2) 1 try_first

abbrev inside : World
inside = record calling { futex_var = 1; threads = set calling.threads 1 critical }

inside_reached : {early : Bool} → Reaches early (initial 2) inside
inside_reached =
    then calling inside (then (initial 2) calling start (calls_lock 1 refl))
      (first_locks 1 refl refl)

one_holder_example : ◌≡◌ {A = ℕ} 1 1
one_holder_example =
    Reaches-one_holder {early = true} 2 inside 1 1 critical critical inside_reached refl refl refl
      refl

-- Thread 1 holds the lock, and thread 0 has found it taken and waits; then thread 1 calls unlock_c.
abbrev waiting : Pc → World
waiting p = record { futex_var = 1; num_futex_waiters = 0; threads = wait_enter 1 ∷ p ∷ [] }

waiting_reached : {early : Bool} → Reaches early (initial 2) (waiting (release leave))
waiting_reached =
    then (waiting critical) (waiting (release leave))
      (then (move inside 0 try_first) (waiting critical)
        (then inside (move inside 0 try_first) inside_reached (calls_lock 0 refl))
        (first_fails 0 refl one-zero))
      (calls_unlock 1 refl)

abbrev entered : Pc → World
entered p = record { futex_var = 1; num_futex_waiters = 1; threads = wait_call 1 ∷ p ∷ [] }

abbrev asleep_at : ℕ → Pc → World
asleep_at var p = record { futex_var = var; num_futex_waiters = 1; threads = asleep 1 ∷ p ∷ [] }

falls_asleep_at :
    {early : Bool} (p : Pc)
    → Reaches early (initial 2) (waiting p)
    → Reaches early (initial 2) (asleep_at 1 p)
falls_asleep_at p r =
    then (entered p) (asleep_at 1 p) (then (waiting p) (entered p) r (enters 0 1 refl))
      (falls_asleep 0 1 refl refl)

released : Reaches false (initial 2) (asleep_at 0 (check_waiters 1 (left leave)))
released =
    then (asleep_at 1 (release leave)) (asleep_at 0 (check_waiters 1 (left leave)))
      (falls_asleep_at (release leave) waiting_reached) (releases 1 leave refl)

someone_awake_example :
    (j : ℕ) × (p : Pc) × At (asleep_at 0 (check_waiters 1 (left leave))) j p × (1 ≤ on_way p)
someone_awake_example =
    Reaches-someone_awake 2 (asleep_at 0 (check_waiters 1 (left leave))) 0 0 released refl refl

-- If the store of the release becomes visible late, the lock is free and its only waiter sleeps, with
-- nobody left to wake it.
wake_up_lost : Reaches true (initial 2) (asleep_at 0 idle)
wake_up_lost =
    then (asleep_at 1 (late_store leave)) (asleep_at 0 idle)
      (falls_asleep_at (late_store leave) (
        then (waiting (release leave)) (waiting (late_store leave)) waiting_reached
          (reads_early 1 leave refl refl refl)))
      (stores_late 1 leave refl)

abbrev moves : List Scope.Op
moves = Scope.construct 7 ∷ Scope.move_construct 0 ∷ Scope.construct 8 ∷ Scope.move_assign 1 2 ∷ []

abbrev moved : Scope.World
moved = record {
  guards = none ∷ some 8 ∷ none ∷ [];
  log = Scope.unlock_c 7 ∷ Scope.lock_c 8 ∷ Scope.lock_c 7 ∷ [];
}

moves_made : Scope.apply_all Scope.empty moves ≡ done moved
unfolding Scope.apply_all
moves_made = refl

abbrev store : Store
store = record { objects = (3, 1) ∷ []; vars = some 3 ∷ [] }

self_deletes : copy_assign store 0 0 ≡ done (record { objects = []; vars = none ∷ [] })
unfolding copy_assign
self_deletes = refl
