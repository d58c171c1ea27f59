-- ===== src/Lock/BruteTests.antt =====
-- Two threads at the spinning lock: one holds it, the other spins.
use udp_stuff.Base.{ℕ, ◌≡◌, refl, arith, set}
use udp_stuff.Lock.Brute.{
  World, critical, try_first, look_brute, brute_enter, Reaches, start, then, calls_lock,
  first_locks, first_fails, few_spin, initial, move,
}
use udp_stuff.Lock.Brute.Exclusion.{Brute-one_holder}

abbrev calling : World
calling = move (initial 2) 1 try_first

abbrev inside : World
inside = record calling { futex_var = 1; threads = set calling.threads 1 critical }

abbrev both : World
both = move inside 0 try_first

abbrev failed : World
failed = record both { futex_var = 1; threads = set both.threads 0 look_brute }

abbrev spins : World
spins = move failed 0 brute_enter

spins_reached : Reaches 24 1 (initial 2) spins
spins_reached =
    then failed spins
      (then both failed
        (then inside both
          (then calling inside (then (initial 2) calling start (calls_lock 1 refl))
            (first_locks 1 refl refl))
          (calls_lock 0 refl))
        (first_fails 0 refl (omega arith)))
      (few_spin 0 refl (omega arith))

brute_example : ◌≡◌ {A = ℕ} 1 1
brute_example =
    Brute-one_holder 24 1 2 spins 1 1 critical critical spins_reached refl refl refl refl
