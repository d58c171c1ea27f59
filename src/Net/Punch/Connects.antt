-- ===== src/Net/Punch/Connects.antt =====
-- Which socket `tcpv4_hole_punch` returns, by what the system answers.
use udp_stuff.Base.{
  ℕ, zero, suc, ◌≡◌, if◌then◌else◌, ◌||◌, Bool, true, false, not, [], Option, none, some,
}
use udp_stuff.Net.Punch.{Accepted, Try, Exit, returned, wrong_peer, HolePunchSettings, one_try}

module _ (dst_addr dst_port : ℕ) where
  -- A socket whose local calls succeed; whether the try listens or connects.
  abbrev pub Ready : Try → ℕ → Type 0
  Ready t fd = (t.socket ≡ some fd) × (t.bind ≡ true) × (t.timeout ≡ true)

  -- The try gets no connection, and nothing goes wrong: nobody comes in time, or `connect` fails.
  abbrev pub InVain : Bool → Try → Type 0
  InVain true t = (fd : ℕ) × Ready t fd × (t.listen ≡ true) × (t.accept ≡ none)
  InVain false t = (fd : ℕ) × Ready t fd × (t.connect ≡ false)

  -- The try gets a connection to the peer on the socket `fd`: the accepted one, if it comes from the
  -- address and the port that are expected, or its own.
  abbrev pub Connected : Bool → Try → ℕ → Type 0
  Connected true t fd =
      (own : ℕ) × (a : Accepted) × Ready t own
      × (t.listen ≡ true)
      × (t.accept ≡ some a)
      × (a.addr ≡ dst_addr)
      × (a.port ≡ dst_port)
      × (a.new_fd ≡ fd)
  Connected false t fd = Ready t fd × (t.connect ≡ true)

-- What the comparisons with the expected peer decide.
verdict : Bool → Bool → ℕ → Exit
verdict same_addr same_port n = if not same_addr || not same_port then wrong_peer n else returned n

module _ (Float : Type 0) (times : Float → Float → Float) (more_than : Float → Float → Bool) where
  module _ (s : HolePunchSettings Float times more_than) where
    abbrev exit_of : Bool → Try → Exit
    exit_of listen t = (one_try Float times more_than s listen t t.socket []).0

    abbrev try_of : Option ℕ → Bool → Bool → Bool → Option Accepted → Bool → Try
    try_of socket bind timeout listen accept connect = record {
      socket = socket;
      bind = bind;
      timeout = timeout;
      listen = listen;
      accept = accept;
      connect = connect;
    }

    module _ (answers : ℕ → Try) where
      -- From try `i` on, `j` tries are in vain, and the next one gets the connection.
      abbrev pub FirstConnects : ℕ → Bool → ℕ → ℕ → Type 0
      FirstConnects i listen zero fd = Connected s.dst_addr s.dst_port listen (answers i) fd
      FirstConnects i listen (suc j) fd =
          InVain s.dst_addr s.dst_port listen (answers i) × FirstConnects (suc i) (not listen) j fd
