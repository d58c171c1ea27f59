-- ===== src/Lock/Simple/Waking/Runs.antt =====
-- LockObjectSimple: the steps of a run leave no sleeper behind.
use udp_stuff.Base.{
  ℕ, zero, suc, ◌+◌, ◌≤◌, ◌≡◌, ◌≢◌, refl, ◌∙◌, arith, false, List, [], ◌∷◌, some, get_elem?, set,
  get_elem?-set, dec_lt,
}
use udp_stuff.Lock.Threads.{total, total-get}
use udp_stuff.Lock.Simple.{
  leave, condition, left, signal, Pc, idle, try_first, critical, wait_enter, wait_call, wait_leave,
  asleep, try_again, release, late_store, check_waiters, waking, World, At, went, Step, calls_lock,
  first_locks, first_fails, enters, falls_asleep, stays_awake, interrupted, leaves, again_locks,
  again_fails, calls_unlock, calls_wait, releases, reads_early, stores_late, calls_notify,
  sees_none, sees_some, wakes, wakes_none, woken_all, Reaches, start, then, idles, initial,
}
use udp_stuff.Lock.Simple.Exclusion.{Inv, Reaches-Inv}
use udp_stuff.Lock.Simple.Waking.{
  on_way, waits_lock, late, Awake, waits-le, still_on_time, arrives, arrives_among, taken,
  like_before, none_sleeps, went-counts, enters-Awake, falls_asleep-Awake, leaves-Awake,
  sees_some-Awake, woken_all-Awake,
}

pub one-zero : ◌≢◌ {A = ℕ} 1 0
one-zero e = omega arith

Step-Awake :
    (u v : World)
    → Step false u v
    → Inv u
    → Awake u.futex_var u.threads
    → Awake v.futex_var v.threads
Step-Awake u v (calls_lock i e) w a =
    arrives u.futex_var u.threads i idle try_first e a refl u.futex_var refl
Step-Awake u v (first_locks i e z) w a =
    taken u.futex_var u.threads i try_first critical e a refl 1 one-zero
Step-Awake u v (first_fails i e z) w a =
    taken u.futex_var u.threads i try_first (wait_enter 1) e a refl 1 one-zero
Step-Awake u v (enters i n e) w a = enters-Awake u.futex_var n u.threads i e a
Step-Awake u v (falls_asleep i n e same) w a = falls_asleep-Awake u.futex_var n u.threads i e same a
Step-Awake u v (stays_awake i n e z) w a =
    arrives u.futex_var u.threads i (wait_call n) (wait_leave n) e a refl u.futex_var refl
Step-Awake u v (interrupted i n e) w a =
    arrives u.futex_var u.threads i (asleep n) (wait_leave n) e a refl u.futex_var refl
Step-Awake u v (leaves i n e) w a = leaves-Awake u.futex_var n u.threads i e a
Step-Awake u v (again_locks i e z) w a =
    taken u.futex_var u.threads i try_again critical e a refl 1 one-zero
Step-Awake u v (again_fails i e z) w a =
    taken u.futex_var u.threads i try_again (wait_enter 1) e a refl 1 one-zero
Step-Awake u v (calls_unlock i e) w a =
    like_before u.futex_var u.threads i critical (release leave) e a refl refl refl
Step-Awake u v (calls_wait i e) w a =
    like_before u.futex_var u.threads i critical (release condition) e a refl refl refl
Step-Awake u v (releases i k e) w a =
    arrives u.futex_var u.threads i (release k) (check_waiters 1 (left k)) e a refl 0 refl
Step-Awake u v (reads_early i k never e z) w a = cc
Step-Awake u v (stores_late i k e) w a =
    let n = a.no_late in let g = total-get late u.threads i (late_store k) e in absurd (omega arith)
Step-Awake u v (calls_notify i n e) w a =
    like_before u.futex_var u.threads i critical (check_waiters n signal) e a refl refl refl
Step-Awake u v (sees_none i n k e z) w a =
    let c = went-counts k in
    let few = waits-le u.threads in
    let all = w.all_counted in
    none_sleeps u.futex_var u.threads i (check_waiters n k) (went k) e a c.0 (omega (arith, few.0))
      c.1
Step-Awake u v (sees_some i n k e z) w a = sees_some-Awake u.futex_var n k u.threads i e a
Step-Awake u v (wakes i j n m k e e' differ) w a =
    let first = still_on_time u.futex_var u.threads i (waking (n + 1) k) (waking n k) e a refl in
    arrives_among u.futex_var (set u.threads i (waking n k)) j (asleep m) (wait_leave m)
      (get_elem?-set u.threads i j (waking n k) differ ∙ e') first refl refl
Step-Awake u v (wakes_none i n k e z) w a =
    let c = went-counts k in
    let few = waits-le u.threads in
    none_sleeps u.futex_var u.threads i (waking n k) (went k) e a c.0 (omega (arith, few.1)) c.1
Step-Awake u v (woken_all i k e) w a = woken_all-Awake u.futex_var k u.threads i e a

idles-late : (n : ℕ) → (total late (idles n) ≡ 0) × (total waits_lock (idles n) ≡ 0)
idles-late zero = (refl, refl)
idles-late (suc n) = let ih = idles-late n in (omega (arith, ih.0), omega (arith, ih.1))

Reaches-Awake : (n : ℕ) (w : World) → Reaches false (initial n) w → Awake w.futex_var w.threads
Reaches-Awake n w start =
    let none_yet = idles-late n in
    record { no_late = none_yet.0; some_way = λ z some_sleep. absurd (omega (arith, none_yet.1)) }
Reaches-Awake n w (then u v r s) = Step-Awake u v s (Reaches-Inv n u r) (Reaches-Awake n u r)

-- Of the threads one is on its way, if their sum says so.
someone :
    (threads : List Pc)
    → 1 ≤ total on_way threads
    → (j : ℕ) × (p : Pc) × (get_elem? threads j ≡ some p) × (1 ≤ on_way p)
someone [] h = absurd (omega arith)
someone (p ∷ ps) h = elim (dec_lt 0 (on_way p)) [
  | yes here ↦ (0, p, refl, omega arith)
  | no elsewhere ↦ let (j, q, there, way) = someone ps (omega arith) in (suc j, q, there, way)
]

-- No wake-up is lost, if stores become visible in the order of the program: in every state that any
-- number of threads can reach, if the lock is free and a thread sleeps until it is, there is a thread
-- that is on its way to try the lock, or that has just released it and is about to look for waiters or to
-- wake one.
pub Reaches-someone_awake :
    (n : ℕ) (w : World) (i v : ℕ)
    → Reaches false (initial n) w
    → w.futex_var ≡ 0
    → At w i (asleep (suc v))
    → (j : ℕ) × (p : Pc) × At w j p × (1 ≤ on_way p)
Reaches-someone_awake n w i v r free sleeper =
    let a = Reaches-Awake n w r in
    let g = total-get waits_lock w.threads i (asleep (suc v)) sleeper in
    someone w.threads (a.some_way free (omega arith))
