-- ===== src/Conn/Peers/Listen.antt =====
-- conn/peers.cc, `peer_listen_thread`: the sockets that are accepted, and closed again.
use udp_stuff.Base.{
  ℕ, ◌+◌, ◌≡◌, refl, arith, ◌==◌, Bool, Bool-cases, inl, inr, if◌then◌else◌, List, [], ◌∷◌, Option,
  none, some, Outcome, done, throws, connection_error,
}
use udp_stuff.Net.Punch.{Event, opened, bound, listens, closed}
use udp_stuff.Net.Punch.Sockets.{opens, closes}
use udp_stuff.Udp4.Driver.{swap16}

-- What the system answers to the calls of the listening socket: whether they succeed, and the sockets
-- that are accepted before `accept` fails for the first time.
pub record Answers : Type 0 where
  pub bind : Bool
  pub listen : Bool
  pub accepted : List ℕ

-- The guard of the accepted socket goes at the end of each round.
unfoldable pub accept_rounds : List ℕ → List Event → List Event
accept_rounds [] log = log
accept_rounds (new_fd ∷ more) log = accept_rounds more (closed new_fd ∷ opened new_fd ∷ log)

-- After the calls of the guarded socket it is closed, whether they throw or return. `INADDR_ANY` is 0.
unfoldable pub listen_on : ℕ → ℕ → Answers → List Event → Outcome (Unit {0}) × List Event
unfolding accept_rounds
listen_on port fd a log =
    let log' = bound fd (swap16 port) 0 ∷ log in
    if a.bind
    then (if a.listen
        then (done tt, closed fd ∷ accept_rounds a.accepted (listens fd ∷ log'))
        else (throws connection_error, closed fd ∷ listens fd ∷ log'))
    else (throws connection_error, closed fd ∷ log')

unfoldable pub peer_listen_thread : ℕ → Answers → Option ℕ → Outcome (Unit {0}) × List Event
unfolding listen_on
peer_listen_thread port a none = (throws connection_error, [])
peer_listen_thread port a (some fd) = listen_on port fd a (opened fd ∷ [])

module _ (x : ℕ) where
  accept_rounds_lem :
      (fds : List ℕ) (log : List Event) (n : ℕ)
      → opens x log ≡ closes x log + n
      → opens x (accept_rounds fds log) ≡ closes x (accept_rounds fds log) + n
  unfolding accept_rounds
  accept_rounds_lem [] log n h = h
  accept_rounds_lem (fd ∷ fds) log n h = accept_rounds_lem fds _ n (omega arith)

  listen_on_lem :
      (port fd : ℕ) (a : Answers) (log : List Event)
      → opens x log ≡ closes x log + (if fd == x then 1 else 0)
      → opens x (listen_on port fd a log).1 ≡ closes x (listen_on port fd a log).1
  unfolding listen_on
  listen_on_lem port fd a log h = elim (Bool-cases a.bind) [
    | inl binds ↦ elim (Bool-cases a.listen) [
      | inl waits ↦
          rw (binds, waits)
            (omega (
              arith,
              accept_rounds_lem a.accepted (listens fd ∷ bound fd (swap16 port) 0 ∷ log)
                  (if fd == x then 1 else 0) h,
            ))
      | inr fails ↦ rw (binds, fails) (omega arith)
    ]
    | inr fails ↦ rw fails (omega arith)
  ]

  -- Whatever the system answers, peer_listen_thread closes every socket that it opens as often.
  pub peer_listen_thread-closes :
      (port : ℕ) (a : Answers) (socket : Option ℕ)
      → opens x (peer_listen_thread port a socket).1 ≡ closes x (peer_listen_thread port a socket).1
  unfolding peer_listen_thread
  peer_listen_thread-closes port a none = refl
  peer_listen_thread-closes port a (some fd) =
      listen_on_lem port fd a (opened fd ∷ []) (omega arith)
