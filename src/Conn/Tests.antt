-- ===== src/Conn/Tests.antt =====
-- A message in three pieces, a registry of one handler, a certificate and a hasher.
use udp_stuff.Base.{
  ℕ, ◌≡◌, refl, arith, true, List, [], ◌∷◌, ◌++◌, Bytes, length, take, drop, none, some, find,
  Outcome, done, throws, runtime_error, no_handler, ◌>>=◌,
}
use udp_stuff.Conn.Ssl.{read, read_failed, written, ssl_read_all, ssl_write_all}
use udp_stuff.Conn.Ssl.Chunks.{concat, reads, ssl_read_all_lem}
use udp_stuff.Conn.Handler.{MessageHeader, GlobalChannelHandler}
use udp_stuff.Conn.Peers.{
  PeerConnection, tcp_v4_ssl, header_bytes, read_header, send_message, send_data_to_peer,
  handle_round, peer_handle_thread,
}
use udp_stuff.Conn.Peers.Listen.{peer_listen_thread}
use udp_stuff.Net.Punch.{opened, bound, listens, closed}
use udp_stuff.Conn.Peers.Messages.{send_message_lem, handle_round_lem}
use udp_stuff.Conn.Auth.{StoreCtx, ssl_peer_id_verify_handler}
use udp_stuff.Conn.Auth.Accepts.{Trusted, verify-Trusted}
use udp_stuff.Conn.Hasher.{Evp}

ssl_read_all_example :
    ssl_read_all
      (reads ((1 ∷ []) ∷ (2 ∷ 3 ∷ []) ∷ []) (read_failed ∷ []))
      (length (concat ((1 ∷ []) ∷ (2 ∷ 3 ∷ []) ∷ [])))
    ≡ done (concat ((1 ∷ []) ∷ (2 ∷ 3 ∷ []) ∷ []), read_failed ∷ [])
ssl_read_all_example =
    ssl_read_all_lem ((1 ∷ []) ∷ (2 ∷ 3 ∷ []) ∷ []) (read_failed ∷ [])
      (omega arith, (omega arith, tt))

two_writes :
    ssl_write_all (written 1 ∷ written 2 ∷ []) (7 ∷ 8 ∷ 9 ∷ [])
    ≡ done ((7 ∷ []) ∷ (8 ∷ 9 ∷ []) ∷ [], [])
unfolding ssl_write_all
two_writes = refl

-- A handler that keeps what it got.
abbrev keeps : GlobalChannelHandler (List Bytes)
keeps = record { max_data_size = 4; on_data = λ src_id data_ size s. done (data_ ∷ s) }

none_yet : find {V = GlobalChannelHandler (List Bytes)} 3 [] ≡ none
unfolding find
none_yet = refl

abbrev con : PeerConnection (List Bytes)
con = record {
  socket = some 5;
  conn_type = tcp_v4_ssl;
  src_address = record { ip = 1; port = 2 };
  dst_address = record { ip = 3; port = 4 };
  reads = [];
  writes = written 3 ∷ written 5 ∷ written 2 ∷ [];
  peer_id = 1 ∷ [];
  open_channel_handlers = [];
}

abbrev header : MessageHeader
header = record { size = 2; type = 3 }

con_sends :
    send_message con 3 (8 ∷ 9 ∷ [])
    ≡ done (
      (2 ∷ 0 ∷ 0 ∷ []) ∷ (0 ∷ 3 ∷ 0 ∷ 0 ∷ 0 ∷ []) ∷ (8 ∷ 9 ∷ []) ∷ [],
      record con { writes = [] },
    )
unfolding send_message
con_sends = refl

peer_missing : send_data_to_peer (con ∷ []) (2 ∷ []) 3 (8 ∷ []) ≡ throws runtime_error
unfolding send_data_to_peer
peer_missing = refl

send_message_example :
    (read_header (take 8 (2 ∷ 0 ∷ 0 ∷ 0 ∷ 3 ∷ 0 ∷ 0 ∷ 0 ∷ 8 ∷ 9 ∷ [])) ≡ done header)
    × (drop {A = ℕ} 8 (2 ∷ 0 ∷ 0 ∷ 0 ∷ 3 ∷ 0 ∷ 0 ∷ 0 ∷ 8 ∷ 9 ∷ []) ≡ 8 ∷ 9 ∷ [])
send_message_example =
    send_message_lem con (record con { writes = [] }) 3 (8 ∷ 9 ∷ [])
      ((2 ∷ 0 ∷ 0 ∷ []) ∷ (0 ∷ 3 ∷ 0 ∷ 0 ∷ 0 ∷ []) ∷ (8 ∷ 9 ∷ []) ∷ []) (omega arith) (omega arith)
      con_sends

abbrev handlers : List (ℕ × GlobalChannelHandler (List Bytes))
handlers = (3, keeps) ∷ []

handler_found : find 3 handlers ≡ some keeps
unfolding find
handler_found = refl

-- The block is of zeros, the bytes of the message are 8 and 9.
handle_round_example :
    handle_round handlers
      (1 ∷ [])
      (reads (header_bytes header ∷ []) (read (8 ∷ 9 ∷ []) ∷ []))
      (λ n. some (0 ∷ 0 ∷ []))
      []
    ≡ (keeps.on_data (1 ∷ []) (0 ∷ 0 ∷ []) 2 [] >>= λ t. done (t, read (8 ∷ 9 ∷ []) ∷ []))
handle_round_example =
    handle_round_lem handlers (1 ∷ []) (header_bytes header ∷ []) (read (8 ∷ 9 ∷ []) ∷ []) header
      (λ n. some (0 ∷ 0 ∷ [])) (0 ∷ 0 ∷ []) keeps [] (omega arith, tt) refl
      (omega arith, omega arith) refl handler_found (omega arith)

thread_ends :
    peer_handle_thread {S = ℕ} []
      (1 ∷ [])
      (read (header_bytes header) ∷ [])
      ((λ n. some (0 ∷ 0 ∷ [])) ∷ [])
      0
    ≡ throws no_handler
unfolding peer_handle_thread
thread_ends = refl

listens_to_two :
    peer_listen_thread 258 (record { bind = true; listen = true; accepted = 4 ∷ 5 ∷ [] }) (some 3)
    ≡ (
      done tt,
      closed 3
          ∷ closed 5
          ∷ opened 5
          ∷ closed 4
          ∷ opened 4
          ∷ listens 3
          ∷ bound 3 513 0
          ∷ opened 3
          ∷ [],
    )
unfolding peer_listen_thread
listens_to_two = refl

abbrev key_itself : Bytes → Outcome (List ℕ)
key_itself key = done key

abbrev store : StoreCtx
store = record {
  chain = some (some (6 ∷ 7 ∷ [])) ∷ none ∷ [];
  store_idx = some 0;
  ssl = some (some (6 ∷ 7 ∷ []));
}

store_accepted : ssl_peer_id_verify_handler key_itself true store ≡ done 1
unfolding ssl_peer_id_verify_handler
store_accepted = refl

long_chain_refused :
    ssl_peer_id_verify_handler key_itself true
      (record store { chain = none ∷ none ∷ none ∷ none ∷ none ∷ [] })
    ≡ done 0
unfolding ssl_peer_id_verify_handler
long_chain_refused = refl

verify_example : (true ≡ true) × Trusted key_itself store
verify_example = verify-Trusted key_itself true store store_accepted

-- A library that hashes to the bytes themselves, and takes a missing digest for this one.
abbrev identity : Evp
identity = record {
  Ctx = Bytes;
  Md = Unit {0};
  get_digestbyname = λ name. some tt;
  ctx_new = some [];
  init = λ c md. some [];
  update = λ c more. some (c ++ more);
  final = λ c. some (c, c);
  reset = λ c. some [];
}
