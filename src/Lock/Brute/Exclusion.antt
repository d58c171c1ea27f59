-- ===== src/Lock/Brute/Exclusion.antt =====
-- LockObjectBrute: what holds however the steps of the threads are interleaved.
use udp_stuff.Base.{ℕ, zero, suc, ◌+◌, ◌-◌, ◌≤◌, ◌≡◌, refl, arith, ◌∙◌, set, ℕ_discrete}
use udp_stuff.Lock.Threads.{total, total-set, total-get, total-pair}
use udp_stuff.Base.{get_elem?-set}
use udp_stuff.Lock.Simple.{leave, condition, After, left, signal}
use udp_stuff.Lock.Brute.{
  Pc, idle, try_first, critical, wait_enter, wait_call, wait_leave, asleep, try_again, release,
  check_waiters, waking, look_brute, brute_enter, brute_try, brute_yield, brute_won, brute_lost,
  check_brute, World, move, At, returned, went, Step, calls_lock, first_locks, first_fails,
  few_spin, many_spin, starts_spin, spin_locks, spin_fails, spins_on, gives_up, won, lost, enters,
  falls_asleep, stays_awake, interrupted, leaves, again_locks, again_fails, calls_unlock,
  calls_wait, releases, skips_notify, notifies, calls_notify, sees_none, sees_some, wakes,
  wakes_none, woken_all, Reaches, start, then, idles, initial,
}

-- The threads that hold the lock.
abbrev pub holds : Pc → ℕ
holds critical = 1
holds (release k) = 1
holds (check_waiters n signal) = 1
holds (waking n signal) = 1
holds brute_won = 1
holds _ = 0

-- The threads that `num_futex_waiters` counts.
abbrev pub counted : Pc → ℕ
counted (wait_call v) = 1
counted (wait_leave v) = 1
counted (asleep v) = 1
counted _ = 0

-- The threads that `num_brute_waiters` counts.
abbrev pub spinning : Pc → ℕ
spinning (brute_try n) = 1
spinning (brute_yield n) = 1
spinning brute_won = 1
spinning brute_lost = 1
spinning _ = 0

record Inv (w : World) : Type 0 where
  pub bit : w.futex_var ≤ 1
  pub one_holder : total holds w.threads ≡ w.futex_var
  pub all_counted : total counted w.threads ≡ w.num_futex_waiters
  pub all_spinning : total spinning w.threads ≡ w.num_brute_waiters

returned-holds : (v : ℕ) → holds (returned v) ≡ 0
returned-holds zero = refl
returned-holds (suc n) = refl

returned-counted : (v : ℕ) → counted (returned v) ≡ 0
returned-counted zero = refl
returned-counted (suc n) = refl

went-holds :
    (n m : ℕ) (k : After)
    → (holds (went k) ≡ holds (check_waiters n k))
      × (holds (waking m k) ≡ holds (check_waiters n k))
went-holds n m (left leave) = (refl, refl)
went-holds n m (left condition) = (refl, refl)
went-holds n m signal = (refl, refl)

went-spinning : (k : After) → spinning (went k) ≡ 0
went-spinning (left leave) = refl
went-spinning (left condition) = refl
went-spinning signal = refl

returned-spinning : (v : ℕ) → spinning (returned v) ≡ 0
returned-spinning zero = refl
returned-spinning (suc n) = refl

went-counted : (k : After) → counted (went k) ≡ 0
went-counted (left leave) = refl
went-counted (left condition) = refl
went-counted signal = refl

-- A thread that goes from `p` to `q`.
spin_lem :
    (w : World) (i : ℕ) (p q : Pc) (var waiters spinners : ℕ)
    → Inv w
    → At w i p
    → var ≤ 1
    → holds q + w.futex_var ≡ holds p + var
    → counted q + w.num_futex_waiters ≡ counted p + waiters
    → spinning q + w.num_brute_waiters ≡ spinning p + spinners
    → Inv (record w {
      futex_var = var;
      num_futex_waiters = waiters;
      num_brute_waiters = spinners;
      threads = set w.threads i q;
    })
spin_lem w i p q var waiters spinners v at b h c s =
    let x = total-set holds w.threads i p q at in
    let y = total-set counted w.threads i p q at in
    let z = total-set spinning w.threads i p q at in
    let a = v.one_holder in
    let d = v.all_counted in
    let f = v.all_spinning in
    record {
      bit = b;
      one_holder = omega arith;
      all_counted = omega arith;
      all_spinning = omega arith;
    }

step_lem :
    (w : World) (i : ℕ) (p q : Pc) (var waiters : ℕ)
    → Inv w
    → At w i p
    → var ≤ 1
    → holds q + w.futex_var ≡ holds p + var
    → counted q + w.num_futex_waiters ≡ counted p + waiters
    → spinning q ≡ spinning p
    → Inv (record w { futex_var = var; num_futex_waiters = waiters; threads = set w.threads i q })
step_lem w i p q var waiters v at b h c s =
    spin_lem w i p q var waiters w.num_brute_waiters v at b h c (omega arith)

Step-Inv : (limit count : ℕ) (u v : World) → Step limit count u v → Inv u → Inv v
Step-Inv limit count u v (calls_lock i a) w =
    step_lem u i idle try_first u.futex_var u.num_futex_waiters w a w.bit refl refl refl
Step-Inv limit count u v (first_locks i a e) w =
    step_lem u i try_first critical 1 u.num_futex_waiters w a (omega arith) (omega arith) refl refl
Step-Inv limit count u v (first_fails i a e) w =
    let b = w.bit in
    step_lem u i try_first look_brute 1 u.num_futex_waiters w a (omega arith) (omega arith) refl
      refl
Step-Inv limit count u v (enters i n a) w =
    step_lem u i (wait_enter n) (wait_call n) u.futex_var (u.num_futex_waiters + 1) w a w.bit refl
      (omega arith) refl
Step-Inv limit count u v (falls_asleep i n a e) w =
    step_lem u i (wait_call n) (asleep n) u.futex_var u.num_futex_waiters w a w.bit refl refl refl
Step-Inv limit count u v (stays_awake i n a e) w =
    step_lem u i (wait_call n) (wait_leave n) u.futex_var u.num_futex_waiters w a w.bit refl refl
      refl
Step-Inv limit count u v (interrupted i n a) w =
    step_lem u i (asleep n) (wait_leave n) u.futex_var u.num_futex_waiters w a w.bit refl refl refl
Step-Inv limit count u v (leaves i n a) w =
    let some_left = total-get counted u.threads i (wait_leave n) a in
    let all = w.all_counted in
    let h = returned-holds n in
    let c = returned-counted n in
    let s = returned-spinning n in
    step_lem u i (wait_leave n) (returned n) u.futex_var (u.num_futex_waiters - 1) w a w.bit
      (omega arith) (omega arith) (omega arith)
Step-Inv limit count u v (again_locks i a e) w =
    step_lem u i try_again critical 1 u.num_futex_waiters w a (omega arith) (omega arith) refl refl
Step-Inv limit count u v (again_fails i a e) w =
    let b = w.bit in
    step_lem u i try_again (wait_enter 1) 1 u.num_futex_waiters w a (omega arith) (omega arith) refl
      refl
Step-Inv limit count u v (calls_unlock i a) w =
    step_lem u i critical (release leave) u.futex_var u.num_futex_waiters w a w.bit refl refl refl
Step-Inv limit count u v (calls_wait i a) w =
    step_lem u i critical (release condition) u.futex_var u.num_futex_waiters w a w.bit refl refl
      refl
Step-Inv limit count u v (releases i k a) w =
    let held = total-get holds u.threads i (release k) a in
    let b = w.bit in
    let h = w.one_holder in
    step_lem u i (release k) (check_brute k) 0 u.num_futex_waiters w a (omega arith) (omega arith)
      refl refl
Step-Inv limit count u v (calls_notify i n a) w =
    step_lem u i critical (check_waiters n signal) u.futex_var u.num_futex_waiters w a w.bit refl
      refl refl
Step-Inv limit count u v (sees_none i n k a e) w =
    let h = went-holds n n k in
    let c = went-counted k in
    let s = went-spinning k in
    step_lem u i (check_waiters n k) (went k) u.futex_var u.num_futex_waiters w a w.bit
      (omega (arith, h.0)) (omega arith) (omega arith)
Step-Inv limit count u v (sees_some i n k a e) w =
    let h = went-holds n n k in
    step_lem u i (check_waiters n k) (waking n k) u.futex_var u.num_futex_waiters w a w.bit
      (omega (arith, h.1)) refl refl
Step-Inv limit count u v (wakes i j n m k a b d) w =
    let h = went-holds n (n + 1) k in
    let h' = went-holds n n k in
    let first =
      step_lem u i (waking (n + 1) k) (waking n k) u.futex_var u.num_futex_waiters w a w.bit
        (omega (arith, h.1, h'.1)) refl refl in
    step_lem (move u i (waking n k)) j (asleep m) (wait_leave m) u.futex_var u.num_futex_waiters
      first (get_elem?-set u.threads i j (waking n k) d ∙ b) w.bit refl refl refl
Step-Inv limit count u v (wakes_none i n k a e) w =
    let h = went-holds n n k in
    let c = went-counted k in
    let s = went-spinning k in
    step_lem u i (waking n k) (went k) u.futex_var u.num_futex_waiters w a w.bit
      (omega (arith, h.0, h.1)) (omega arith) (omega arith)
Step-Inv limit count u v (woken_all i k a) w =
    let h = went-holds 0 0 k in
    let c = went-counted k in
    let s = went-spinning k in
    step_lem u i (waking 0 k) (went k) u.futex_var u.num_futex_waiters w a w.bit
      (omega (arith, h.0, h.1)) (omega arith) (omega arith)
Step-Inv limit count u v (few_spin i a e) w =
    step_lem u i look_brute brute_enter u.futex_var u.num_futex_waiters w a w.bit refl refl refl
Step-Inv limit count u v (many_spin i a e) w =
    step_lem u i look_brute (wait_enter 1) u.futex_var u.num_futex_waiters w a w.bit refl refl refl
Step-Inv limit count u v (starts_spin i a) w =
    spin_lem u i brute_enter (brute_try limit) u.futex_var u.num_futex_waiters
      (u.num_brute_waiters + 1) w a w.bit refl refl (omega arith)
Step-Inv limit count u v (spin_locks i n a e) w =
    step_lem u i (brute_try n) brute_won 1 u.num_futex_waiters w a (omega arith) (omega arith) refl
      refl
Step-Inv limit count u v (spin_fails i n a e) w =
    let b = w.bit in
    step_lem u i (brute_try n) (brute_yield n) 1 u.num_futex_waiters w a (omega arith) (omega arith)
      refl refl
Step-Inv limit count u v (spins_on i n a e) w =
    step_lem u i (brute_yield n) (brute_try (n - 1)) u.futex_var u.num_futex_waiters w a w.bit refl
      refl refl
Step-Inv limit count u v (gives_up i a) w =
    step_lem u i (brute_yield 1) brute_lost u.futex_var u.num_futex_waiters w a w.bit refl refl refl
Step-Inv limit count u v (won i a) w =
    let one = total-get spinning u.threads i brute_won a in
    let all = w.all_spinning in
    spin_lem u i brute_won critical u.futex_var u.num_futex_waiters (u.num_brute_waiters - 1) w a
      w.bit refl refl (omega arith)
Step-Inv limit count u v (lost i a) w =
    let one = total-get spinning u.threads i brute_lost a in
    let all = w.all_spinning in
    spin_lem u i brute_lost (wait_enter 1) u.futex_var u.num_futex_waiters (u.num_brute_waiters - 1)
      w a w.bit refl refl (omega arith)
Step-Inv limit count u v (skips_notify i k a e) w =
    let h = went-holds 0 0 (left k) in
    let c = went-counted (left k) in
    let s = went-spinning (left k) in
    step_lem u i (check_brute k) (went (left k)) u.futex_var u.num_futex_waiters w a w.bit
      (omega (arith, h.0)) (omega arith) (omega arith)
Step-Inv limit count u v (notifies i k a e) w =
    step_lem u i (check_brute k) (check_waiters 1 (left k)) u.futex_var u.num_futex_waiters w a
      w.bit refl refl refl

idles-lem :
    (n : ℕ)
    → (total holds (idles n) ≡ 0) × (total counted (idles n) ≡ 0) × (total spinning (idles n) ≡ 0)
idles-lem zero = (refl, refl, refl)
idles-lem (suc n) =
    let ih = idles-lem n in (omega (arith, ih.0), omega (arith, ih.1), omega (arith, ih.2))

Reaches-Inv : (limit count n : ℕ) (w : World) → Reaches limit count (initial n) w → Inv w
Reaches-Inv limit count n w start =
    let none_yet = idles-lem n in
    record {
      bit = omega arith;
      one_holder = none_yet.0;
      all_counted = none_yet.1;
      all_spinning = none_yet.2;
    }
Reaches-Inv limit count n w (then u v r s) =
    Step-Inv limit count u v s (Reaches-Inv limit count n u r)

-- Mutual exclusion of the spinning lock: for every limit of rounds and number of spinning threads, whatever steps
-- any number of threads have taken, two threads that hold the lock are one.
pub Brute-one_holder :
    (limit count n : ℕ) (w : World) (i j : ℕ) (p q : Pc)
    → Reaches limit count (initial n) w
    → At w i p
    → At w j q
    → holds p ≡ 1
    → holds q ≡ 1
    → i ≡ j
Brute-one_holder limit count n w i j p q r a b hp hq = elim (ℕ_discrete i j) [
  | yes e ↦ e
  | no differ ↦
      let v = Reaches-Inv limit count n w r in
      let two = total-pair holds w.threads i j p q a b differ in
      let bit = v.bit in let one = v.one_holder in absurd (omega arith)
]
