-- ===== src/Conn/Peers/Messages.antt =====
-- A message from `send_data_to_peer` to the thread of the peer that gets it.
use udp_stuff.Base.{
  ℕ, ◌^◌, ◌≤◌, ◌<◌, ◌≡◌, refl, ap, ap₂, sym, arith, ◌∙◌, subst, false, List, [], ◌∷◌, ◌++◌,
  append_assoc, Bytes, length, take, drop, Option, some, find, >>=-eq-done, ltb, Outcome, done,
  ◌>>=◌,
}
use udp_stuff.Conn.Ssl.{ReadResult, ssl_read_all, ssl_write_all}
use udp_stuff.Conn.Ssl.Chunks.{concat, NonEmpty, reads, ssl_read_all_lem, ssl_write_all_lem}
use udp_stuff.Conn.Handler.{MessageHeader, PeerId512, GlobalChannelHandler, global_handle_data}
use udp_stuff.Conn.Peers.{PeerConnection, header_bytes, read_header, send_message, handle_round}

concat-append : (cs bs : List Bytes) → concat (cs ++ bs) ≡ concat cs ++ concat bs
concat-append [] bs = refl
concat-append (c ∷ cs) bs =
    ap (λ t. c ++ t) (concat-append cs bs) ∙ sym (append_assoc c (concat cs) (concat bs))

abbrev FitsHeader : MessageHeader → Type 0
FitsHeader h = (h.size < 2 ^ 32) × (h.type < 2 ^ 32)

read_header_lem : (h : MessageHeader) → FitsHeader h → read_header (header_bytes h) ≡ done h
read_header_lem h f =
    let a = f.0 in
    let b = f.1 in
    let make : ℕ → ℕ → Outcome MessageHeader = λ n k. done (record { size = n; type = k }) in
    ap₂ make (omega arith) (omega arith)

abbrev sent_of : {S : Type 0} → Outcome (List Bytes × PeerConnection S) → List Bytes
sent_of (done (sent, after)) = sent
sent_of _ = []

-- A message that was sent is, in order, its header and its bytes, however the writes were cut; and a reader of
-- the first 8 bytes finds its size and type, if both fit 32 bits.
pub send_message_lem :
    {S : Type 0} (con after : PeerConnection S) (type : ℕ) (data_ : Bytes) (sent : List Bytes)
    → type < 2 ^ 32
    → length data_ < 2 ^ 32
    → send_message con type data_ ≡ done (sent, after)
    → (read_header (take 8 (concat sent)) ≡ done (record { size = length data_; type = type }))
      × (drop 8 (concat sent) ≡ data_)
unfolding send_message
send_message_lem con after type data_ sent t l e =
    let h : MessageHeader = record { size = length data_; type = type } in
    let ((first, ws), a, e1) = >>=-eq-done (ssl_write_all con.writes (header_bytes h)) _ e in
    let ((second, left), b, e2) = >>=-eq-done (ssl_write_all ws data_) _ e1 in
    let pieces : sent ≡ first ++ second = sym (ap sent_of e2) in
    let whole : concat sent ≡ header_bytes h ++ data_ =
      ap concat pieces
      ∙ concat-append first second
      ∙ ap₂ (λ x y. x ++ y) (ssl_write_all_lem con.writes ws (header_bytes h) first a)
          (ssl_write_all_lem ws left data_ second b) in
    (rw whole (read_header_lem h (l, t)), rw whole refl)

-- A round of the thread, once a header of `h` has come in, in pieces: the handler gets the block that `malloc`
-- gave, with whatever bytes it had, and what came behind the header stays unread.
pub handle_round_lem :
    {S : Type 0} (handlers : List (ℕ × GlobalChannelHandler S)) (peer_id : PeerId512)
    (chunks : List Bytes) (rest : List ReadResult) (h : MessageHeader) (malloc : ℕ → Option Bytes)
    (block : Bytes) (handler : GlobalChannelHandler S) (s : S)
    → NonEmpty chunks
    → concat chunks ≡ header_bytes h
    → FitsHeader h
    → malloc h.size ≡ some block
    → find h.type handlers ≡ some handler
    → h.size ≤ handler.max_data_size
    → handle_round handlers peer_id (reads chunks rest) malloc s
      ≡ (handler.on_data peer_id block h.size s >>= λ t. done (t, rest))
unfolding handle_round global_handle_data
handle_round_lem handlers peer_id chunks rest h malloc block handler s ok same fits m f small =
    let r : ssl_read_all (reads chunks rest) 8 ≡ done (header_bytes h, rest) =
      subst (λ b. ssl_read_all (reads chunks rest) (length b) ≡ done (b, rest)) same
        (ssl_read_all_lem chunks rest ok) in
    let allowed : ltb handler.max_data_size h.size ≡ false = ground arith in
    let header = read_header_lem h fits in ground (arith, r, header, m, f, allowed)
