-- ===== src/Lock/Simple/Waking.antt =====
-- LockObjectSimple: no sleeper is left behind, if stores become visible in the order of the program.
pub mod Runs
use udp_stuff.Base.{
  ℕ, zero, suc, ◌+◌, ◌-◌, ◌≤◌, ◌≡◌, ◌≢◌, refl, ap, arith, ◌∙◌, Bool, true, false, List, [], ◌∷◌,
  some, get_elem?, set, get_elem?-set,
}
use udp_stuff.Lock.Threads.{total, total-set, total-get}
use udp_stuff.Lock.Simple.{
  leave, condition, After, left, signal, Pc, idle, try_first, critical, wait_enter, wait_call,
  wait_leave, asleep, try_again, release, late_store, check_waiters, waking, World, move, At,
  returned, went, sleeps, Step, calls_lock, first_locks, first_fails, enters, falls_asleep,
  stays_awake, interrupted, leaves, again_locks, again_fails, calls_unlock, calls_wait, releases,
  reads_early, stores_late, calls_notify, sees_none, sees_some, wakes, wakes_none, woken_all,
  Reaches, start, then, idles, initial,
}
use udp_stuff.Lock.Simple.Exclusion.{counted, Inv, Reaches-Inv}

abbrev any_of : ℕ → ℕ
any_of zero = 0
any_of (suc n) = 1

-- A thread that is awake and on its way to try the lock, or that has released it and has still to look
-- for waiters or to wake one. A thread in the section, one that waits for a notify and one that notifies
-- are not.
abbrev pub on_way : Pc → ℕ
on_way try_first = 1
on_way (wait_enter (suc v)) = 1
on_way (wait_call (suc v)) = 1
on_way (wait_leave v) = 1
on_way try_again = 1
on_way (check_waiters n (left k)) = any_of n
on_way (waking n (left k)) = any_of n
on_way _ = 0

-- A thread that sleeps until the lock is free
abbrev waits_lock : Pc → ℕ
waits_lock (asleep (suc v)) = 1
waits_lock _ = 0

abbrev late : Pc → ℕ
late (late_store k) = 1
late _ = 0

record Awake (var : ℕ) (threads : List Pc) : Type 0 where
  pub no_late : total late threads ≡ 0
  pub some_way : var ≡ 0 → 1 ≤ total waits_lock threads → 1 ≤ total on_way threads

waits-le :
    (threads : List Pc)
    → (total waits_lock threads ≤ total counted threads)
      × (total waits_lock threads ≤ total sleeps threads)
waits-le [] = (omega arith, omega arith)
waits-le (asleep zero ∷ ps) = let h = waits-le ps in (omega (arith, h.0), omega (arith, h.1))
waits-le (asleep (suc v) ∷ ps) = let h = waits-le ps in (omega (arith, h.0), omega (arith, h.1))
waits-le (wait_call v ∷ ps) = let h = waits-le ps in (omega (arith, h.0), omega (arith, h.1))
waits-le (wait_leave v ∷ ps) = let h = waits-le ps in (omega (arith, h.0), omega (arith, h.1))
waits-le (_ ∷ ps) = let h = waits-le ps in (omega (arith, h.0), omega (arith, h.1))

-- A thread that stores nothing late comes to be on its way.
arrives_among :
    (var : ℕ) (threads : List Pc) (i : ℕ) (p q : Pc)
    → get_elem? threads i ≡ some p
    → total late threads ≡ 0
    → late q ≡ 0
    → on_way q ≡ 1
    → Awake var (set threads i q)
arrives_among var threads i p q there none_late on_time e =
    let t = total-set on_way threads i p q there in
    let g = total-get on_way threads i p there in
    let u = total-set late threads i p q there in
    record { no_late = omega arith; some_way = λ z w. omega arith }

module _ (var : ℕ) (threads : List Pc) (i : ℕ) (p q : Pc) (there : get_elem? threads i ≡ some p)
    (a : Awake var threads) (on_time : late q ≡ 0) where
  still_on_time : total late (set threads i q) ≡ 0
  still_on_time = let t = total-set late threads i p q there in let n = a.no_late in omega arith

  arrives : (var' : ℕ) → on_way q ≡ 1 → Awake var' (set threads i q)
  arrives var' e = arrives_among var' threads i p q there a.no_late on_time e

  -- The lock is not free.
  taken : (var' : ℕ) → var' ≢ 0 → Awake var' (set threads i q)
  taken var' held = record { no_late = still_on_time; some_way = λ z w. absurd (held z) }

  -- The thread counts as before.
  like_before : on_way p ≡ on_way q → waits_lock p ≡ waits_lock q → Awake var (set threads i q)
  like_before same same' =
      let t = total-set on_way threads i p q there in
      let u = total-set waits_lock threads i p q there in
      record {
        no_late = still_on_time;
        some_way = λ z w. let s = a.some_way z (omega arith) in omega arith;
      }

  -- Nobody sleeps.
  none_sleeps : total waits_lock threads ≡ 0 → waits_lock q ≡ 0 → Awake var (set threads i q)
  none_sleeps z e =
      let u = total-set waits_lock threads i p q there in
      record { no_late = still_on_time; some_way = λ z' w. absurd (omega arith) }

went-counts : (k : After) → (late (went k) ≡ 0) × (waits_lock (went k) ≡ 0) × (on_way (went k) ≡ 0)
went-counts (left leave) = (refl, refl, refl)
went-counts (left condition) = (refl, refl, refl)
went-counts signal = (refl, refl, refl)

enters-Awake :
    (var v : ℕ) (threads : List Pc) (i : ℕ)
    → get_elem? threads i ≡ some (wait_enter v)
    → Awake var threads
    → Awake var (set threads i (wait_call v))
enters-Awake var zero threads i e a =
    like_before var threads i (wait_enter 0) (wait_call 0) e a refl refl refl
enters-Awake var (suc v) threads i e a =
    arrives var threads i (wait_enter (suc v)) (wait_call (suc v)) e a refl var refl

falls_asleep-Awake :
    (var v : ℕ) (threads : List Pc) (i : ℕ)
    → get_elem? threads i ≡ some (wait_call v)
    → var ≡ v
    → Awake var threads
    → Awake var (set threads i (asleep v))
falls_asleep-Awake var zero threads i e same a =
    like_before var threads i (wait_call 0) (asleep 0) e a refl refl refl
falls_asleep-Awake var (suc v) threads i e same a =
    taken var threads i (wait_call (suc v)) (asleep (suc v)) e a refl var (λ z. omega arith)

leaves-Awake :
    (var v : ℕ) (threads : List Pc) (i : ℕ)
    → get_elem? threads i ≡ some (wait_leave v)
    → Awake var threads
    → Awake var (set threads i (returned v))
leaves-Awake var zero threads i e a =
    arrives var threads i (wait_leave 0) try_first e a refl var refl
leaves-Awake var (suc v) threads i e a =
    arrives var threads i (wait_leave (suc v)) try_again e a refl var refl

sees_some-Awake :
    (var n : ℕ) (k : After) (threads : List Pc) (i : ℕ)
    → get_elem? threads i ≡ some (check_waiters n k)
    → Awake var threads
    → Awake var (set threads i (waking n k))
sees_some-Awake var n signal threads i e a =
    like_before var threads i (check_waiters n signal) (waking n signal) e a refl refl refl
sees_some-Awake var zero (left k) threads i e a =
    like_before var threads i (check_waiters 0 (left k)) (waking 0 (left k)) e a refl refl refl
sees_some-Awake var (suc n) (left k) threads i e a =
    arrives var threads i (check_waiters (suc n) (left k)) (waking (suc n) (left k)) e a refl var
      refl

woken_all-Awake :
    (var : ℕ) (k : After) (threads : List Pc) (i : ℕ)
    → get_elem? threads i ≡ some (waking 0 k)
    → Awake var threads
    → Awake var (set threads i (went k))
woken_all-Awake var (left leave) threads i e a =
    like_before var threads i (waking 0 (left leave)) idle e a refl refl refl
woken_all-Awake var (left condition) threads i e a =
    like_before var threads i (waking 0 (left condition)) (wait_enter 0) e a refl refl refl
woken_all-Awake var signal threads i e a =
    like_before var threads i (waking 0 signal) critical e a refl refl refl
