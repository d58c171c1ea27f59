-- ===== src/Lock/Simple.antt =====
-- utils/lock/simple.h: LockObjectSimple, step by step of any number of threads. A thread calls unlock_c,
-- wait and notify while it holds the lock.
pub mod Exclusion
pub mod Waking
use udp_stuff.Base.{
  Bool, true, false, ℕ, zero, suc, ◌+◌, ◌-◌, ◌≤◌, ◌<◌, ◌≡◌, ◌≢◌, refl, arith, List, [], ◌∷◌, Option,
  none, some, get_elem?, set,
}
use udp_stuff.Lock.Threads.{total}

-- Where a thread goes after it has released the lock, out of `unlock_c` or on in `wait`; and what a call of
-- `notify` ends: that release, or a call by the thread in the section.
pub data Left : Type 0 where
  leave condition : Left

pub data After : Type 0 where
  left : Left → After
  signal : After

-- The place of a thread: outside, before each access to a shared variable, asleep, or in the section. The
-- argument of the places of `futex_wait` is its value. At `late_store` a release has read the waiters, and its
-- store is not visible yet.
pub data Pc : Type 0 where
  idle try_first critical : Pc
  wait_enter wait_call wait_leave asleep : ℕ → Pc
  try_again : Pc
  release : Left → Pc
  late_store : Left → Pc
  check_waiters : ℕ → After → Pc
  waking : ℕ → After → Pc

pub record World : Type 0 where
  pub futex_var : ℕ
  pub num_futex_waiters : ℕ
  pub threads : List Pc

abbrev pub move : World → ℕ → Pc → World
move w i p = record w { threads = set w.threads i p }

abbrev pub At : World → ℕ → Pc → Type 0
At w i p = get_elem? w.threads i ≡ some p

-- A return from `futex_wait`: the loop of `__lock_wait` tries again, `wait` goes on to `lock_c`.
abbrev pub returned : ℕ → Pc
returned zero = try_first
returned (suc n) = try_again

abbrev pub went : After → Pc
went (left leave) = idle
went (left condition) = wait_enter 0
went signal = critical

abbrev pub sleeps : Pc → ℕ
sleeps (asleep v) = 1
sleeps _ = 0

-- One access to a shared variable, one system call or one call of a method by thread `i`. If `early` is true,
-- the store of `atomic_release` may become visible after the read of `num_futex_waiters` that follows it:
-- `__sync_lock_release` is a barrier for what comes before it only. A read that finds waiters makes a call
-- of the system, before which the store is visible.
pub data Step (early : Bool) (w : World) : World → Type 0 where
  calls_lock : (i : ℕ) → At w i idle → Step early w (move w i try_first)
  first_locks :
      (i : ℕ)
      → At w i try_first
      → w.futex_var ≡ 0
      → Step early w (record w { futex_var = 1; threads = set w.threads i critical })
  first_fails :
      (i : ℕ)
      → At w i try_first
      → w.futex_var ≢ 0
      → Step early w (record w { futex_var = 1; threads = set w.threads i (wait_enter 1) })
  enters :
      (i v : ℕ)
      → At w i (wait_enter v)
      → Step early w (record w {
        num_futex_waiters = w.num_futex_waiters + 1;
        threads = set w.threads i (wait_call v);
      })
  falls_asleep :
      (i v : ℕ) → At w i (wait_call v) → w.futex_var ≡ v → Step early w (move w i (asleep v))
  stays_awake :
      (i v : ℕ) → At w i (wait_call v) → w.futex_var ≢ v → Step early w (move w i (wait_leave v))
  interrupted : (i v : ℕ) → At w i (asleep v) → Step early w (move w i (wait_leave v))
  leaves :
      (i v : ℕ)
      → At w i (wait_leave v)
      → Step early w (record w {
        num_futex_waiters = w.num_futex_waiters - 1;
        threads = set w.threads i (returned v);
      })
  again_locks :
      (i : ℕ)
      → At w i try_again
      → w.futex_var ≡ 0
      → Step early w (record w { futex_var = 1; threads = set w.threads i critical })
  again_fails :
      (i : ℕ)
      → At w i try_again
      → w.futex_var ≢ 0
      → Step early w (record w { futex_var = 1; threads = set w.threads i (wait_enter 1) })
  calls_unlock : (i : ℕ) → At w i critical → Step early w (move w i (release leave))
  calls_wait : (i : ℕ) → At w i critical → Step early w (move w i (release condition))
  releases :
      (i : ℕ) (k : Left)
      → At w i (release k)
      → Step early w
          (record w { futex_var = 0; threads = set w.threads i (check_waiters 1 (left k)) })
  reads_early :
      (i : ℕ) (k : Left)
      → early ≡ true
      → At w i (release k)
      → w.num_futex_waiters ≡ 0
      → Step early w (move w i (late_store k))
  stores_late :
      (i : ℕ) (k : Left)
      → At w i (late_store k)
      → Step early w (record w { futex_var = 0; threads = set w.threads i (went (left k)) })
  calls_notify : (i n : ℕ) → At w i critical → Step early w (move w i (check_waiters n signal))
  sees_none :
      (i n : ℕ) (k : After)
      → At w i (check_waiters n k)
      → w.num_futex_waiters ≡ 0
      → Step early w (move w i (went k))
  sees_some :
      (i n : ℕ) (k : After)
      → At w i (check_waiters n k)
      → w.num_futex_waiters ≢ 0
      → Step early w (move w i (waking n k))
  wakes :
      (i j n v : ℕ) (k : After)
      → At w i (waking (n + 1) k)
      → At w j (asleep v)
      → i ≢ j
      → Step early w (move (move w i (waking n k)) j (wait_leave v))
  wakes_none :
      (i n : ℕ) (k : After)
      → At w i (waking n k)
      → total sleeps w.threads ≡ 0
      → Step early w (move w i (went k))
  woken_all : (i : ℕ) (k : After) → At w i (waking 0 k) → Step early w (move w i (went k))

pub data Reaches (early : Bool) (w : World) : World → Type 0 where
  start : Reaches early w w
  then : (u v : World) → Reaches early w u → Step early u v → Reaches early w v

abbrev idles : ℕ → List Pc
idles zero = []
idles (suc n) = let rest = idles n in idle ∷ rest

abbrev pub initial : ℕ → World
initial n = record { futex_var = 0; num_futex_waiters = 0; threads = idles n }
