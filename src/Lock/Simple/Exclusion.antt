-- ===== src/Lock/Simple/Exclusion.antt =====
-- LockObjectSimple: what holds however the steps of the threads are interleaved.
use udp_stuff.Base.{Bool, ℕ, zero, suc, ◌+◌, ◌-◌, ◌≤◌, ◌≡◌, refl, arith, ◌∙◌, set, ℕ_discrete}
use udp_stuff.Lock.Threads.{total, total-set, total-get, total-pair}
use udp_stuff.Base.{get_elem?-set}
use udp_stuff.Lock.Simple.{
  leave, condition, After, left, signal, Pc, idle, try_first, critical, wait_enter, wait_call,
  wait_leave, asleep, try_again, release, check_waiters, waking, World, move, At, returned, went,
  reads_early, stores_late, late_store, Step, calls_lock, first_locks, first_fails, enters,
  falls_asleep, stays_awake, interrupted, leaves, again_locks, again_fails, calls_unlock,
  calls_wait, releases, calls_notify, sees_none, sees_some, wakes, wakes_none, woken_all, Reaches,
  start, then, idles, initial,
}

-- The threads that hold the lock.
abbrev pub holds : Pc → ℕ
holds critical = 1
holds (release k) = 1
holds (late_store k) = 1
holds (check_waiters n signal) = 1
holds (waking n signal) = 1
holds _ = 0

-- The threads that `num_futex_waiters` counts.
abbrev pub counted : Pc → ℕ
counted (wait_call v) = 1
counted (wait_leave v) = 1
counted (asleep v) = 1
counted _ = 0

pub record Inv (w : World) : Type 0 where
  pub bit : w.futex_var ≤ 1
  pub one_holder : total holds w.threads ≡ w.futex_var
  pub all_counted : total counted w.threads ≡ w.num_futex_waiters

returned-holds : (v : ℕ) → holds (returned v) ≡ 0
returned-holds zero = refl
returned-holds (suc n) = refl

returned-counted : (v : ℕ) → counted (returned v) ≡ 0
returned-counted zero = refl
returned-counted (suc n) = refl

went-holds :
    (n m : ℕ) (k : After)
    → (holds (went k) ≡ holds (check_waiters n k))
      × (holds (waking m k) ≡ holds (check_waiters n k))
went-holds n m (left leave) = (refl, refl)
went-holds n m (left condition) = (refl, refl)
went-holds n m signal = (refl, refl)

went-counted : (k : After) → counted (went k) ≡ 0
went-counted (left leave) = refl
went-counted (left condition) = refl
went-counted signal = refl

-- A thread that goes from `p` to `q`.
step_lem :
    (w : World) (i : ℕ) (p q : Pc) (var waiters : ℕ)
    → Inv w
    → At w i p
    → var ≤ 1
    → holds q + w.futex_var ≡ holds p + var
    → counted q + w.num_futex_waiters ≡ counted p + waiters
    → Inv (record w { futex_var = var; num_futex_waiters = waiters; threads = set w.threads i q })
step_lem w i p q var waiters v at b h c =
    let x = total-set holds w.threads i p q at in
    let y = total-set counted w.threads i p q at in
    let a = v.one_holder in
    let d = v.all_counted in record { bit = b; one_holder = omega arith; all_counted = omega arith }

Step-Inv : {early : Bool} (u v : World) → Step early u v → Inv u → Inv v
Step-Inv u v (calls_lock i a) w =
    step_lem u i idle try_first u.futex_var u.num_futex_waiters w a w.bit refl refl
Step-Inv u v (first_locks i a e) w =
    step_lem u i try_first critical 1 u.num_futex_waiters w a (omega arith) (omega arith) refl
Step-Inv u v (first_fails i a e) w =
    let b = w.bit in
    step_lem u i try_first (wait_enter 1) 1 u.num_futex_waiters w a (omega arith) (omega arith) refl
Step-Inv u v (enters i n a) w =
    step_lem u i (wait_enter n) (wait_call n) u.futex_var (u.num_futex_waiters + 1) w a w.bit refl
      (omega arith)
Step-Inv u v (falls_asleep i n a e) w =
    step_lem u i (wait_call n) (asleep n) u.futex_var u.num_futex_waiters w a w.bit refl refl
Step-Inv u v (stays_awake i n a e) w =
    step_lem u i (wait_call n) (wait_leave n) u.futex_var u.num_futex_waiters w a w.bit refl refl
Step-Inv u v (interrupted i n a) w =
    step_lem u i (asleep n) (wait_leave n) u.futex_var u.num_futex_waiters w a w.bit refl refl
Step-Inv u v (leaves i n a) w =
    let some_left = total-get counted u.threads i (wait_leave n) a in
    let all = w.all_counted in
    let h = returned-holds n in
    let c = returned-counted n in
    step_lem u i (wait_leave n) (returned n) u.futex_var (u.num_futex_waiters - 1) w a w.bit
      (omega arith) (omega arith)
Step-Inv u v (again_locks i a e) w =
    step_lem u i try_again critical 1 u.num_futex_waiters w a (omega arith) (omega arith) refl
Step-Inv u v (again_fails i a e) w =
    let b = w.bit in
    step_lem u i try_again (wait_enter 1) 1 u.num_futex_waiters w a (omega arith) (omega arith) refl
Step-Inv u v (calls_unlock i a) w =
    step_lem u i critical (release leave) u.futex_var u.num_futex_waiters w a w.bit refl refl
Step-Inv u v (calls_wait i a) w =
    step_lem u i critical (release condition) u.futex_var u.num_futex_waiters w a w.bit refl refl
Step-Inv u v (releases i k a) w =
    let held = total-get holds u.threads i (release k) a in
    let b = w.bit in
    let h = w.one_holder in
    step_lem u i (release k) (check_waiters 1 (left k)) 0 u.num_futex_waiters w a (omega arith)
      (omega arith) refl
Step-Inv u v (reads_early i k yes' a e) w =
    step_lem u i (release k) (late_store k) u.futex_var u.num_futex_waiters w a w.bit refl refl
Step-Inv u v (stores_late i k a) w =
    let held = total-get holds u.threads i (late_store k) a in
    let b = w.bit in
    let h = w.one_holder in
    let gone = went-holds 0 0 (left k) in
    let c = went-counted (left k) in
    step_lem u i (late_store k) (went (left k)) 0 u.num_futex_waiters w a (omega arith)
      (omega (arith, gone.0)) (omega arith)
Step-Inv u v (calls_notify i n a) w =
    step_lem u i critical (check_waiters n signal) u.futex_var u.num_futex_waiters w a w.bit refl
      refl
Step-Inv u v (sees_none i n k a e) w =
    let h = went-holds n n k in
    let c = went-counted k in
    step_lem u i (check_waiters n k) (went k) u.futex_var u.num_futex_waiters w a w.bit
      (omega (arith, h.0)) (omega arith)
Step-Inv u v (sees_some i n k a e) w =
    let h = went-holds n n k in
    step_lem u i (check_waiters n k) (waking n k) u.futex_var u.num_futex_waiters w a w.bit
      (omega (arith, h.1)) refl
Step-Inv u v (wakes i j n m k a b d) w =
    let h = went-holds n (n + 1) k in
    let h' = went-holds n n k in
    let first =
      step_lem u i (waking (n + 1) k) (waking n k) u.futex_var u.num_futex_waiters w a w.bit
        (omega (arith, h.1, h'.1)) refl in
    step_lem (move u i (waking n k)) j (asleep m) (wait_leave m) u.futex_var u.num_futex_waiters
      first (get_elem?-set u.threads i j (waking n k) d ∙ b) w.bit refl refl
Step-Inv u v (wakes_none i n k a e) w =
    let h = went-holds n n k in
    let c = went-counted k in
    step_lem u i (waking n k) (went k) u.futex_var u.num_futex_waiters w a w.bit
      (omega (arith, h.0, h.1)) (omega arith)
Step-Inv u v (woken_all i k a) w =
    let h = went-holds 0 0 k in
    let c = went-counted k in
    step_lem u i (waking 0 k) (went k) u.futex_var u.num_futex_waiters w a w.bit
      (omega (arith, h.0, h.1)) (omega arith)

idles-lem : (n : ℕ) → (total holds (idles n) ≡ 0) × (total counted (idles n) ≡ 0)
idles-lem zero = (refl, refl)
idles-lem (suc n) = let ih = idles-lem n in (omega (arith, ih.0), omega (arith, ih.1))

pub Reaches-Inv : {early : Bool} (n : ℕ) (w : World) → Reaches early (initial n) w → Inv w
Reaches-Inv n w start =
    let none_yet = idles-lem n in
    record { bit = omega arith; one_holder = none_yet.0; all_counted = none_yet.1 }
Reaches-Inv n w (then u v r s) = Step-Inv u v s (Reaches-Inv n u r)

-- Mutual exclusion: whatever steps any number of threads have taken, two threads that hold the lock are one,
-- also where stores of releases become visible late.
pub Reaches-one_holder :
    {early : Bool} (n : ℕ) (w : World) (i j : ℕ) (p q : Pc)
    → Reaches early (initial n) w
    → At w i p
    → At w j q
    → holds p ≡ 1
    → holds q ≡ 1
    → i ≡ j
Reaches-one_holder n w i j p q r a b hp hq = elim (ℕ_discrete i j) [
  | yes e ↦ e
  | no differ ↦
      let v = Reaches-Inv n w r in
      let two = total-pair holds w.threads i j p q a b differ in
      let bit = v.bit in let one = v.one_holder in absurd (omega arith)
]
