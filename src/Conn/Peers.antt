-- ===== src/Conn/Peers.antt =====
-- conn/peers.h and conn/peers.cc: the connected peers, their messages out and in.
pub mod Listen
pub mod Messages
use udp_stuff.Base.{
  ℕ, zero, suc, ◌+◌, ◌-◌, ◌*◌, ◌/◌, ◌%◌, ◌^◌, Bool, true, false, List, [], ◌∷◌, ◌++◌, Bytes, length,
  Option, none, some, find, ltb, ◌==◌, if◌then◌else◌, ◌&&◌, Outcome, done, throws, fault, hangs,
  runtime_error, protocol_error, no_handler, ◌>>=◌,
}
use udp_stuff.Conn.Ssl.{ReadResult, WriteResult, ssl_read_all, ssl_write_all}
use udp_stuff.Conn.Handler.{
  MessageHeader, PeerId512, GlobalChannelHandler, PeerChannelHandler, global_handle_data,
}
use udp_stuff.Conn.Auth.{id_eq}

pub data PeerConnectionType : Type 0 where
  tcp_v4_ssl udp_v4 tcp_v6_ssl udp_v6 : PeerConnectionType

pub record PeerAddressData : Type 0 where
  pub ip : ℕ
  pub port : ℕ

-- The SSL object is what its next calls come to.
pub record PeerConnection (S : Type 0) : Type 0 where
  pub socket : Option ℕ
  pub conn_type : PeerConnectionType
  pub src_address : PeerAddressData
  pub dst_address : PeerAddressData
  pub reads : List ReadResult
  pub writes : List WriteResult
  pub peer_id : PeerId512
  pub open_channel_handlers : List (ℕ × PeerChannelHandler S)

abbrev pub le32 : ℕ → Bytes
le32 n = n % 2 ^ 8 ∷ n / 2 ^ 8 % 2 ^ 8 ∷ n / 2 ^ 16 % 2 ^ 8 ∷ n / 2 ^ 24 % 2 ^ 8 ∷ []

-- `MessageHeader_t` in memory.
abbrev pub header_bytes : MessageHeader → Bytes
header_bytes h = le32 h.size ++ le32 h.type

abbrev pub read_header : Bytes → Outcome MessageHeader
read_header (a ∷ b ∷ c ∷ d ∷ e ∷ f ∷ g ∷ h ∷ []) = done (record {
  size = a + b * 2 ^ 8 + c * 2 ^ 16 + d * 2 ^ 24;
  type = e + f * 2 ^ 8 + g * 2 ^ 16 + h * 2 ^ 24;
})
read_header _ = fault

module _ {S : Type 0} where
  unfoldable pub handle_data : PeerConnection S → ℕ → Bytes → ℕ → S → Outcome (Bool × S)
  unfolding find
  handle_data con type data_ size s = elim (find type con.open_channel_handlers) [
    | none ↦ done (false, s)
    | some h ↦
        if ltb h.max_data_size size
        then throws (protocol_error size h.max_data_size)
        else (h.on_data data_ size s >>= λ t. done (true, t))
  ]

  -- The bytes that a message sends, and the connection after it.
  unfoldable pub send_message :
      PeerConnection S → ℕ → Bytes → Outcome (List Bytes × PeerConnection S)
  unfolding ssl_write_all
  send_message con type data_ = do
    let header : MessageHeader = record { size = length data_; type = type }
    (first, ws) ← ssl_write_all con.writes (header_bytes header)
    (second, left) ← ssl_write_all ws data_
    done (first ++ second, record con { writes = left })

  -- The peers are looked up by the equality of ids.
  unfoldable pub send_data_to_peer :
      List (PeerConnection S)
      → PeerId512
      → ℕ
      → Bytes
      → Outcome (List Bytes × List (PeerConnection S))
  unfolding send_message id_eq
  send_data_to_peer [] peer_id type data_ = throws runtime_error
  send_data_to_peer (con ∷ cons) peer_id type data_ =
      let later = send_data_to_peer cons peer_id type data_ in
      if id_eq con.peer_id peer_id
      then (send_message con type data_ >>= λ (sent, c). done (sent, c ∷ cons))
      else (later >>= λ (sent, cs). done (sent, con ∷ cs))

  -- A round of the thread, where `data` is the block that `malloc` gave.
  unfoldable pub handle_round :
      List (ℕ × GlobalChannelHandler S)
      → PeerId512
      → List ReadResult
      → (ℕ → Option Bytes)
      → S
      → Outcome (S × List ReadResult)
  unfolding ssl_read_all global_handle_data
  handle_round handlers peer_id rs malloc s = do
    (bs, left) ← ssl_read_all rs 8
    header ← read_header bs
    elim (malloc header.size) [
      | none ↦ throws runtime_error
      | some block ↦ (do
        (handled, t) ← global_handle_data handlers peer_id header.type block header.size s
        if handled then done (t, left) else throws no_handler)
    ]

  -- The first rounds of the thread, which no round ends but by an exception.
  unfoldable pub peer_handle_thread :
      List (ℕ × GlobalChannelHandler S)
      → PeerId512
      → List ReadResult
      → List (ℕ → Option Bytes)
      → S
      → Outcome (S × List ReadResult)
  unfolding handle_round
  peer_handle_thread handlers peer_id rs [] s = done (s, rs)
  peer_handle_thread handlers peer_id rs (m ∷ ms) s =
      handle_round handlers peer_id rs m s >>= λ (t, left).
      peer_handle_thread handlers peer_id left ms t
