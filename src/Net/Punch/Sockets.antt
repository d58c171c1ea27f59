-- ===== src/Net/Punch/Sockets.antt =====
-- The sockets of `tcpv4_hole_punch`: what is opened is closed, but for the one that is returned.
use udp_stuff.Base.{
  ℕ, zero, suc, ◌+◌, ◌==◌, ◌^◌, ◌≡◌, refl, arith, if◌then◌else◌, Bool, true, false, not, ◌||◌, List,
  [], ◌∷◌, Option, none, some, Bool-cases, inl, inr, sub32,
}
use udp_stuff.Net.Punch.{
  Event, opened, bound, listens, connects, closed, Accepted, Try, Exit, returned, again, failed,
  wrong_peer, HolePunchSettings, accept_peer, use_socket, one_try, Result, go_on, punch, hole_punch,
}

abbrev one_of : ℕ → ℕ → ℕ
one_of x fd = if fd == x then 1 else 0

-- How often a socket was opened, and closed
abbrev pub opens : ℕ → List Event → ℕ
opens x [] = 0
opens x (opened fd ∷ log) = one_of x fd + opens x log
opens x (bound fd port addr ∷ log) = opens x log
opens x (listens fd ∷ log) = opens x log
opens x (connects fd port addr ∷ log) = opens x log
opens x (closed fd ∷ log) = opens x log

abbrev pub closes : ℕ → List Event → ℕ
closes x [] = 0
closes x (opened fd ∷ log) = closes x log
closes x (bound fd port addr ∷ log) = closes x log
closes x (listens fd ∷ log) = closes x log
closes x (connects fd port addr ∷ log) = closes x log
closes x (closed fd ∷ log) = one_of x fd + closes x log

-- The socket that is open at the end: the caller's, or that of a peer that was not expected.
abbrev pub left_open : ℕ → Exit → ℕ
left_open x (returned fd) = one_of x fd
left_open x again = 0
left_open x failed = 0
left_open x (wrong_peer fd) = one_of x fd

abbrev Owes : ℕ → Exit × List Event → Type 0
Owes x r = opens x r.1 ≡ closes x r.1 + left_open x r.0

Owes-if :
    (x : ℕ) (c : Bool) (a b : Exit × List Event) → Owes x a → Owes x b → Owes x (if c then a else b)
Owes-if x true a b ha hb = ha
Owes-if x false a b ha hb = hb

module _ (Float : Type 0) (times : Float → Float → Float) (more_than : Float → Float → Bool) where
  module _ (s : HolePunchSettings Float times more_than) (x : ℕ) where
    accept_peer_lem :
        (fd : ℕ) (a : Option Accepted) (log : List Event)
        → opens x log ≡ closes x log + one_of x fd
        → Owes x (accept_peer Float times more_than s fd a log)
    unfolding accept_peer
    accept_peer_lem fd none log h = omega arith
    accept_peer_lem fd (some a) log h =
        elim (Bool-cases (not (a.addr == s.dst_addr) || not (a.port == s.dst_port))) [
          | inl wrong ↦ rw wrong (omega arith)
          | inr right ↦ rw right (omega arith)
        ]

    use_socket_lem :
        (listen : Bool) (t : Try) (fd : ℕ) (log : List Event)
        → opens x log ≡ closes x log + one_of x fd
        → Owes x (use_socket Float times more_than s listen t fd log)
    unfolding use_socket
    use_socket_lem true t fd log h =
        Owes-if x t.listen _ _ (accept_peer_lem fd t.accept (listens fd ∷ log) h) (omega arith)
    use_socket_lem false t fd log h = Owes-if x t.connect _ _ h (omega arith)

    one_try_lem :
        (listen : Bool) (t : Try) (socket : Option ℕ) (log : List Event)
        → opens x log ≡ closes x log
        → Owes x (one_try Float times more_than s listen t socket log)
    unfolding one_try
    one_try_lem listen t none log h = omega arith
    one_try_lem listen t (some fd) log h =
        Owes-if x t.bind _ _
          (Owes-if x t.timeout _ _ (use_socket_lem listen t fd _ (omega arith)) (omega arith))
          (omega arith)

    go_on_lem :
        (r : Exit × List Event) (left : ℕ) (secs : List Float)
        (rest : List Event → Result Float times more_than)
        → Owes x r
        → ((log : List Event)
            → opens x log ≡ closes x log
            → Owes x ((rest log).exit, (rest log).log))
        → Owes x (
          (go_on Float times more_than r left secs rest).exit,
          (go_on Float times more_than r left secs rest).log,
        )
    go_on_lem (returned fd, log) left secs rest h later = h
    go_on_lem (again, log) left secs rest h later = elim (Bool-cases (left == 0)) [
      | inl end ↦ rw end (omega arith)
      | inr more ↦ rw more (later log (omega arith))
    ]
    go_on_lem (failed, log) left secs rest h later = h
    go_on_lem (wrong_peer fd, log) left secs rest h later = h

    punch_lem :
        (answers : ℕ → Try) (fuel i tries : ℕ) (listen : Bool) (sec : Float) (secs : List Float)
        (log : List Event)
        → opens x log ≡ closes x log
        → Owes x (
          (punch Float times more_than s answers fuel i tries listen sec secs log).exit,
          (punch Float times more_than s answers fuel i tries listen sec secs log).log,
        )
    unfolding punch
    punch_lem answers zero i tries listen sec secs log h = omega arith
    punch_lem answers (suc fuel) i tries listen sec secs log h =
        go_on_lem (one_try Float times more_than s listen (answers i) (answers i).socket log)
          (sub32 tries 1) (sec ∷ secs) _ (one_try_lem listen (answers i) (answers i).socket log h)
          (λ log' h'.
            punch_lem answers fuel (suc i) (sub32 tries 1) (not listen) _ (sec ∷ secs) log' h')

    -- Each socket is closed as often as it is opened, but for the one that is returned, and the one
    -- of a peer that was not expected.
    pub hole_punch-left_open :
        (answers : ℕ → Try)
        → opens x (hole_punch Float times more_than s answers).log
          ≡ closes x (hole_punch Float times more_than s answers).log
            + left_open x (hole_punch Float times more_than s answers).exit
    unfolding hole_punch
    hole_punch-left_open answers =
        punch_lem answers (2 ^ 32) 0 s.connect_count s.listen_first s.connect_sec_start [] [] refl
