-- ===== src/Net/Punch.antt =====
-- net/tcpv4.cc, `tcpv4_hole_punch` and the calls it makes. What the system answers in a try is an
-- argument, and so is the arithmetic of `float`.
pub mod Sockets
pub mod Ends
pub mod Connects
use udp_stuff.Base.{
  ℕ, zero, suc, ◌+◌, ◌^◌, ◌==◌, if◌then◌else◌, Bool, true, false, not, ◌||◌, List, [], ◌∷◌, Option,
  none, some, sub32,
}

-- The calls of the system, the last first
pub data Event : Type 0 where
  opened : (fd : ℕ) → Event
  bound : (fd port addr : ℕ) → Event
  listens : (fd : ℕ) → Event
  connects : (fd port addr : ℕ) → Event
  closed : (fd : ℕ) → Event

pub record Accepted : Type 0 where
  pub new_fd : ℕ
  pub addr : ℕ
  pub port : ℕ

-- What the system answers in one try: a socket or an error, whether a call succeeds, and the
-- connection that is accepted, if there is one in time.
pub record Try : Type 0 where
  pub socket : Option ℕ
  pub bind : Bool
  pub timeout : Bool
  pub listen : Bool
  pub accept : Option Accepted
  pub connect : Bool

-- How a try ends: with a connection, with the next try, or with a ConnectionError, of a call or of a
-- peer that is not the one that was expected.
pub data Exit : Type 0 where
  returned : (fd : ℕ) → Exit
  again failed : Exit
  wrong_peer : (new_fd : ℕ) → Exit

module _ (Float : Type 0) (times : Float → Float → Float) (more_than : Float → Float → Bool) where
  pub record HolePunchSettings : Type 0 where
    pub src_port : ℕ
    pub src_addr : ℕ
    pub dst_port : ℕ
    pub dst_addr : ℕ
    pub listen_first : Bool
    pub connect_sec_start : Float
    pub connect_sec_max : Float
    pub connect_sec_scale : Float
    pub connect_count : ℕ

  -- `settings.src_addr || INADDR_ANY`, which is a truth value
  abbrev pub bind_addr : HolePunchSettings → ℕ
  bind_addr s = if not (s.src_addr == 0) then 1 else 0

  -- The guard of the socket closes it at the end of the scope, unless its handle was taken.
  unfoldable pub accept_peer :
      HolePunchSettings → ℕ → Option Accepted → List Event → Exit × List Event
  accept_peer s fd none log = (again, closed fd ∷ log)
  accept_peer s fd (some a) log = (
    if not (a.addr == s.dst_addr) || not (a.port == s.dst_port)
        then wrong_peer a.new_fd
        else returned a.new_fd,
    closed fd ∷ opened a.new_fd ∷ log,
  )

  unfoldable pub use_socket : HolePunchSettings → Bool → Try → ℕ → List Event → Exit × List Event
  unfolding accept_peer
  use_socket s true t fd log =
      if t.listen
      then accept_peer s fd t.accept (listens fd ∷ log)
      else (failed, closed fd ∷ listens fd ∷ log)
  use_socket s false t fd log =
      let log' = connects fd s.dst_port s.dst_addr ∷ log in
      if t.connect then (returned fd, log') else (again, closed fd ∷ log')

  -- The body of the loop
  unfoldable pub one_try :
      HolePunchSettings → Bool → Try → Option ℕ → List Event → Exit × List Event
  unfolding use_socket
  one_try s listen t none log = (failed, log)
  one_try s listen t (some fd) log =
      let log' = bound fd s.src_port (bind_addr s) ∷ opened fd ∷ log in
      if t.bind
      then (if t.timeout then use_socket s listen t fd log' else (failed, closed fd ∷ log'))
      else (failed, closed fd ∷ log')

  -- `connect_sec *= scale; if (connect_sec > max) connect_sec = max;`
  abbrev pub next_sec : HolePunchSettings → Float → Float
  next_sec s sec =
      let scaled = times sec s.connect_sec_scale in
      if more_than scaled s.connect_sec_max then s.connect_sec_max else scaled

  pub record Result : Type 0 where
    pub exit : Exit
    pub log : List Event
    pub timeouts : List Float

  -- What `while (--connect_tries)` makes of a try: `rest` is the loop from the next one.
  abbrev pub go_on : Exit × List Event → ℕ → List Float → (List Event → Result) → Result
  go_on (again, log) left secs rest =
      if left == 0 then record { exit = failed; log = log; timeouts = secs } else rest log
  go_on (exit, log) left secs rest = record { exit = exit; log = log; timeouts = secs }

  -- The loop, on fuel: try `i` is next, and `tries` are left. The last result is that of a loop
  -- that is not over.
  unfoldable pub punch :
      HolePunchSettings → (ℕ → Try) → ℕ → ℕ → ℕ → Bool → Float → List Float → List Event → Result
  unfolding one_try
  punch s answers zero i tries listen sec secs log = record {
    exit = again;
    log = log;
    timeouts = secs;
  }
  punch s answers (suc fuel) i tries listen sec secs log =
      go_on (one_try s listen (answers i) (answers i).socket log) (sub32 tries 1) (sec ∷ secs)
        λ log'.
          punch s answers fuel (suc i) (sub32 tries 1) (not listen) (next_sec s sec) (sec ∷ secs)
            log'

  -- A counter of 32 bits gets to 0 in that many steps.
  unfoldable pub hole_punch : HolePunchSettings → (ℕ → Try) → Result
  unfolding punch
  hole_punch s answers =
      punch s answers (2 ^ 32) 0 s.connect_count s.listen_first s.connect_sec_start [] []
