-- ===== src/Lock/Brute.antt =====
-- utils/lock/brute.h: LockObjectBrute, whose threads spin for a while before they sleep. A thread calls unlock_c,
-- wait and notify while it holds the lock. Stores become visible in the order of the program.
pub mod Exclusion
use udp_stuff.Base.{
  ℕ, zero, suc, ◌+◌, ◌-◌, ◌≤◌, ◌<◌, ◌≡◌, ◌≢◌, refl, arith, List, [], ◌∷◌, Option, none, some,
  get_elem?, set,
}
use udp_stuff.Lock.Threads.{total}
use udp_stuff.Lock.Simple.{Left, leave, condition, After, left, signal}

-- The place of a thread: outside, before each access to a shared variable, asleep, or in the section. The
-- argument of the places of `futex_wait` is its value.
pub data Pc : Type 0 where
  idle try_first critical : Pc
  wait_enter wait_call wait_leave asleep : ℕ → Pc
  try_again : Pc
  release : Left → Pc
  check_waiters : ℕ → After → Pc
  waking : ℕ → After → Pc
  look_brute brute_enter : Pc
  brute_try brute_yield : ℕ → Pc
  brute_won brute_lost : Pc
  check_brute : Left → Pc

pub record World : Type 0 where
  pub futex_var : ℕ
  pub num_futex_waiters : ℕ
  pub num_brute_waiters : ℕ
  pub threads : List Pc

abbrev pub move : World → ℕ → Pc → World
move w i p = record w { threads = set w.threads i p }

abbrev pub At : World → ℕ → Pc → Type 0
At w i p = get_elem? w.threads i ≡ some p

-- A return from `futex_wait`: the loop of `__lock_wait` tries again, `wait` goes on to `lock_c`.
abbrev pub returned : ℕ → Pc
returned zero = try_first
returned (suc n) = try_again

abbrev pub went : After → Pc
went (left leave) = idle
went (left condition) = wait_enter 0
went signal = critical

abbrev pub sleeps : Pc → ℕ
sleeps (asleep v) = 1
sleeps _ = 0

-- One access to a shared variable, one system call or one call of a method by thread `i`.
pub data Step (limit count : ℕ) (w : World) : World → Type 0 where
  calls_lock : (i : ℕ) → At w i idle → Step limit count w (move w i try_first)
  first_locks :
      (i : ℕ)
      → At w i try_first
      → w.futex_var ≡ 0
      → Step limit count w (record w { futex_var = 1; threads = set w.threads i critical })
  first_fails :
      (i : ℕ)
      → At w i try_first
      → w.futex_var ≢ 0
      → Step limit count w (record w { futex_var = 1; threads = set w.threads i look_brute })
  few_spin :
      (i : ℕ)
      → At w i look_brute
      → w.num_brute_waiters < count
      → Step limit count w (move w i brute_enter)
  many_spin :
      (i : ℕ)
      → At w i look_brute
      → count ≤ w.num_brute_waiters
      → Step limit count w (move w i (wait_enter 1))
  starts_spin :
      (i : ℕ)
      → At w i brute_enter
      → Step limit count w (record w {
        num_brute_waiters = w.num_brute_waiters + 1;
        threads = set w.threads i (brute_try limit);
      })
  spin_locks :
      (i n : ℕ)
      → At w i (brute_try n)
      → w.futex_var ≡ 0
      → Step limit count w (record w { futex_var = 1; threads = set w.threads i brute_won })
  spin_fails :
      (i n : ℕ)
      → At w i (brute_try n)
      → w.futex_var ≢ 0
      → Step limit count w (record w { futex_var = 1; threads = set w.threads i (brute_yield n) })
  spins_on :
      (i n : ℕ) → At w i (brute_yield n) → n ≢ 1 → Step limit count w (move w i (brute_try (n - 1)))
  gives_up : (i : ℕ) → At w i (brute_yield 1) → Step limit count w (move w i brute_lost)
  won :
      (i : ℕ)
      → At w i brute_won
      → Step limit count w (record w {
        num_brute_waiters = w.num_brute_waiters - 1;
        threads = set w.threads i critical;
      })
  lost :
      (i : ℕ)
      → At w i brute_lost
      → Step limit count w (record w {
        num_brute_waiters = w.num_brute_waiters - 1;
        threads = set w.threads i (wait_enter 1);
      })
  enters :
      (i v : ℕ)
      → At w i (wait_enter v)
      → Step limit count w (record w {
        num_futex_waiters = w.num_futex_waiters + 1;
        threads = set w.threads i (wait_call v);
      })
  falls_asleep :
      (i v : ℕ) → At w i (wait_call v) → w.futex_var ≡ v → Step limit count w (move w i (asleep v))
  stays_awake :
      (i v : ℕ)
      → At w i (wait_call v)
      → w.futex_var ≢ v
      → Step limit count w (move w i (wait_leave v))
  interrupted : (i v : ℕ) → At w i (asleep v) → Step limit count w (move w i (wait_leave v))
  leaves :
      (i v : ℕ)
      → At w i (wait_leave v)
      → Step limit count w (record w {
        num_futex_waiters = w.num_futex_waiters - 1;
        threads = set w.threads i (returned v);
      })
  again_locks :
      (i : ℕ)
      → At w i try_again
      → w.futex_var ≡ 0
      → Step limit count w (record w { futex_var = 1; threads = set w.threads i critical })
  again_fails :
      (i : ℕ)
      → At w i try_again
      → w.futex_var ≢ 0
      → Step limit count w (record w { futex_var = 1; threads = set w.threads i (wait_enter 1) })
  calls_unlock : (i : ℕ) → At w i critical → Step limit count w (move w i (release leave))
  calls_wait : (i : ℕ) → At w i critical → Step limit count w (move w i (release condition))
  releases :
      (i : ℕ) (k : Left)
      → At w i (release k)
      → Step limit count w (record w { futex_var = 0; threads = set w.threads i (check_brute k) })
  skips_notify :
      (i : ℕ) (k : Left)
      → At w i (check_brute k)
      → w.num_brute_waiters ≢ 0
      → Step limit count w (move w i (went (left k)))
  notifies :
      (i : ℕ) (k : Left)
      → At w i (check_brute k)
      → w.num_brute_waiters ≡ 0
      → Step limit count w (move w i (check_waiters 1 (left k)))
  calls_notify :
      (i n : ℕ) → At w i critical → Step limit count w (move w i (check_waiters n signal))
  sees_none :
      (i n : ℕ) (k : After)
      → At w i (check_waiters n k)
      → w.num_futex_waiters ≡ 0
      → Step limit count w (move w i (went k))
  sees_some :
      (i n : ℕ) (k : After)
      → At w i (check_waiters n k)
      → w.num_futex_waiters ≢ 0
      → Step limit count w (move w i (waking n k))
  wakes :
      (i j n v : ℕ) (k : After)
      → At w i (waking (n + 1) k)
      → At w j (asleep v)
      → i ≢ j
      → Step limit count w (move (move w i (waking n k)) j (wait_leave v))
  wakes_none :
      (i n : ℕ) (k : After)
      → At w i (waking n k)
      → total sleeps w.threads ≡ 0
      → Step limit count w (move w i (went k))
  woken_all : (i : ℕ) (k : After) → At w i (waking 0 k) → Step limit count w (move w i (went k))

pub data Reaches (limit count : ℕ) (w : World) : World → Type 0 where
  start : Reaches limit count w w
  then : (u v : World) → Reaches limit count w u → Step limit count u v → Reaches limit count w v

abbrev idles : ℕ → List Pc
idles zero = []
idles (suc n) = let rest = idles n in idle ∷ rest

abbrev pub initial : ℕ → World
initial n = record {
  futex_var = 0;
  num_futex_waiters = 0;
  num_brute_waiters = 0;
  threads = idles n;
}
