-- ===== src/Conn/Keys/Released.antt =====
-- The handles of the keys and contexts: on every path each is given back, but for the context that
-- the object keeps.
use udp_stuff.Base.{ℕ, ◌+◌, ◌≡◌, Option, Outcome, done, throws, fault, hangs}
use udp_stuff.Lock.Threads.{total}
use udp_stuff.Net.Guard.Once.{taken_over, let_go}
use udp_stuff.Conn.Keys.{Library, Env, Action}

module _ (lib : Library) (x : ℕ) where
  -- What was taken over and not given back is `n`, and what the member counts for.
  module _ (weight : Option ℕ → ℕ) where
    abbrev Owes : ℕ → Env lib → Type 0
    Owes n e = total (taken_over x) e.log ≡ total (let_go x) e.log + (n + weight e.ctx)

    -- Nothing is promised after undefined behaviour.
    abbrev Settled : {A : Type 0} → ℕ → Outcome A × Env lib → Type 0
    Settled n (done a, e) = Owes n e
    Settled n (throws t, e) = Owes n e
    Settled n (fault, e) = Unit
    Settled n (hangs, e) = Unit

    unfoldable Tidy : {A : Type 0} → Action lib A → Type 0
    Tidy m = (n : ℕ) (e : Env lib) → Owes n e → Settled n (m e)

  -- After an exception nothing is left, and after a return what the member holds.
  abbrev pub Released : (Option ℕ → ℕ) → Outcome (Unit {0}) × Env lib → Type 0
  Released weight (done a, e) = total (taken_over x) e.log ≡ total (let_go x) e.log + weight e.ctx
  Released weight (throws t, e) = total (taken_over x) e.log ≡ total (let_go x) e.log
  Released weight (fault, e) = Unit
  Released weight (hangs, e) = Unit
