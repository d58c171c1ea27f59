-- ===== src/Net/Punch/Ends.antt =====
-- `tcpv4_hole_punch` ends with the first try that decides, and listens in every other try.
use udp_stuff.Base.{
  ℕ, zero, suc, ◌^◌, ◌≤◌, ◌==◌, ◌≡◌, ◌≢◌, refl, ap, sym, ◌∙◌, arith, if◌then◌else◌, Bool, true,
  false, not, List, [], ◌∷◌, Option, none, some, Bool-cases, inl, inr, sub32,
}
use udp_stuff.Net.Punch.{
  Event, Accepted, Try, Exit, returned, again, failed, wrong_peer, HolePunchSettings, accept_peer,
  use_socket, one_try, Result, go_on, punch, hole_punch,
}

-- The first try that decides, of `n` tries from try `i` on
abbrev pub or_else : Exit → Exit → Exit
or_else again later = later
or_else (returned fd) later = returned fd
or_else failed later = failed
or_else (wrong_peer fd) later = wrong_peer fd

module _ (Float : Type 0) (times : Float → Float → Float) (more_than : Float → Float → Bool) where
  module _ (s : HolePunchSettings Float times more_than) (answers : ℕ → Try) where
    -- How try `i` ends
    unfoldable pub try_exit : ℕ → Bool → Exit
    try_exit i listen = (one_try Float times more_than s listen (answers i) (answers i).socket []).0

    unfoldable pub first_exit : ℕ → ℕ → Bool → Exit
    first_exit zero i listen = failed
    first_exit (suc n) i listen = or_else (try_exit i listen) (first_exit n (suc i) (not listen))

    exit-if :
        (c : Bool) (a b a' b' : Exit × List Event)
        → a.0 ≡ a'.0
        → b.0 ≡ b'.0
        → (if c then a else b).0 ≡ (if c then a' else b').0
    exit-if true a b a' b' ha hb = ha
    exit-if false a b a' b' ha hb = hb

    accept_exit :
        (fd : ℕ) (a : Option Accepted) (log log' : List Event)
        → (accept_peer Float times more_than s fd a log).0
          ≡ (accept_peer Float times more_than s fd a log').0
    unfolding accept_peer
    accept_exit fd none log log' = refl
    accept_exit fd (some a) log log' = refl

    use_exit :
        (listen : Bool) (t : Try) (fd : ℕ) (log log' : List Event)
        → (use_socket Float times more_than s listen t fd log).0
          ≡ (use_socket Float times more_than s listen t fd log').0
    unfolding use_socket
    use_exit true t fd log log' = exit-if t.listen _ _ _ _ (accept_exit fd t.accept _ _) refl
    use_exit false t fd log log' = exit-if t.connect _ _ _ _ refl refl

    -- How a try ends does not depend on the calls before it.
    one_exit :
        (listen : Bool) (t : Try) (socket : Option ℕ) (log log' : List Event)
        → (one_try Float times more_than s listen t socket log).0
          ≡ (one_try Float times more_than s listen t socket log').0
    unfolding one_try
    one_exit listen t none log log' = refl
    one_exit listen t (some fd) log log' =
        exit-if t.bind _ _ _ _ (exit-if t.timeout _ _ _ _ (use_exit listen t fd _ _) refl) refl

    go_on_exit :
        (r : Exit × List Event) (left : ℕ) (secs : List Float)
        (rest : List Event → Result Float times more_than) (later : Exit)
        → (left ≡ 0 → later ≡ failed)
        → (left ≢ 0 → (log : List Event) → (rest log).exit ≡ later)
        → (go_on Float times more_than r left secs rest).exit ≡ or_else r.0 later
    go_on_exit (returned fd, log) left secs rest later end more = refl
    go_on_exit (again, log) left secs rest later end more = elim (Bool-cases (left == 0)) [
      | inl e ↦ rw e (sym (end (ground (arith, e))))
      | inr e ↦ rw e (more (λ z. ground (arith, e)) log)
    ]
    go_on_exit (failed, log) left secs rest later end more = refl
    go_on_exit (wrong_peer fd, log) left secs rest later end more = refl

    punch_exit :
        (fuel n i tries : ℕ) (listen : Bool) (sec : Float) (secs : List Float) (log : List Event)
        → suc n ≤ fuel
        → sub32 tries 1 ≡ n
        → (punch Float times more_than s answers fuel i tries listen sec secs log).exit
          ≡ first_exit (suc n) i listen
    unfolding punch first_exit try_exit
    punch_exit zero n i tries listen sec secs log le e = absurd (omega arith)
    punch_exit (suc fuel) zero i tries listen sec secs log le e =
        go_on_exit _ (sub32 tries 1) (sec ∷ secs) _ failed (λ z. refl)
          (λ more log'. absurd (more e))
        ∙ ap (λ t. or_else t failed) (one_exit listen (answers i) (answers i).socket log [])
    punch_exit (suc fuel) (suc n) i tries listen sec secs log le e =
        go_on_exit _ (sub32 tries 1) (sec ∷ secs) _ (first_exit (suc n) (suc i) (not listen))
          (λ z. absurd (omega (arith, e, z)))
          (λ more log'.
            punch_exit fuel n (suc i) (sub32 tries 1) (not listen) _ (sec ∷ secs) log' (omega arith)
              (omega (arith, e)))
        ∙ ap (λ t. or_else t (first_exit (suc n) (suc i) (not listen)))
            (one_exit listen (answers i) (answers i).socket log [])

    -- `tcpv4_hole_punch` ends, with the first of `connect_count` tries that decides (of 2 ^ 32, if the
    -- count is 0), and with an error if none does.
    pub hole_punch_lem :
        (hole_punch Float times more_than s answers).exit
        ≡ first_exit (suc (sub32 s.connect_count 1)) 0 s.listen_first
    unfolding hole_punch
    hole_punch_lem =
        punch_exit (2 ^ 32) (sub32 s.connect_count 1) 0 s.connect_count s.listen_first
          s.connect_sec_start [] [] (omega arith) refl
