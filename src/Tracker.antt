-- ===== src/Tracker.antt =====
-- tracker/tracker.h and tracker/tracker.cc: the peers that the tracker knows, and its searches.
pub mod Search
pub mod Flush
pub mod Closest
mod Tests
use udp_stuff.Base.{
  ℕ, zero, suc, ◌+◌, ◌-◌, ◌==◌, ltb, leb, ◌&&◌, ◌||◌, not, if◌then◌else◌, Bool, true, false, List,
  [], ◌∷◌, ◌++◌, Bytes, Option, none, some, get_elem?, length, sub32, Outcome, done, throws, fault,
  hangs, ◌>>=◌,
}
use udp_stuff.Conn.Handler.{PeerId512}
use udp_stuff.Conn.Auth.{id_eq}
use udp_stuff.Conn.Peers.{PeerConnectionType, PeerAddressData}

pub record TrackerPeerInfo : Type 0 where
  pub peer_id : PeerId512
  pub type : PeerConnectionType
  pub address : PeerAddressData
  pub description : Bytes

pub record ConnForwardInfo : Type 0 where
  pub peer_id : PeerId512
  pub address_type : PeerConnectionType
  pub start_address : PeerAddressData
  pub end_address : PeerAddressData
  pub description : Bytes

-- The maps in the order in which a loop meets their elements.
pub record Tracker : Type 0 where
  pub removed_peers : List PeerId512
  pub tracker_peer_info : List (PeerId512 × TrackerPeerInfo)
  pub ipv4_peer_idx : List (ℕ × PeerId512)
  pub conn_forward_info : List (PeerId512 × ConnForwardInfo)

module _ {V : Type 0} where
  unfoldable pub find_id : PeerId512 → List (PeerId512 × V) → Option V
  unfolding id_eq
  find_id id [] = none
  find_id id ((k, v) ∷ m) = let rest = find_id id m in if id_eq k id then some v else rest

  unfoldable pub erase_id : PeerId512 → List (PeerId512 × V) → List (PeerId512 × V)
  unfolding id_eq
  erase_id id [] = []
  erase_id id ((k, v) ∷ m) = let rest = erase_id id m in if id_eq k id then rest else (k, v) ∷ rest

  unfoldable pub erase_ids : List PeerId512 → List (PeerId512 × V) → List (PeerId512 × V)
  unfolding erase_id
  erase_ids [] m = m
  erase_ids (id ∷ ids) m = erase_ids ids (erase_id id m)

abbrev pub is_some : {V : Type 0} → Option V → Bool
is_some none = false
is_some (some v) = true

-- The entries of the index whose peer is still known.
unfoldable pub known :
    List (PeerId512 × TrackerPeerInfo) → List (ℕ × PeerId512) → List (ℕ × PeerId512)
unfolding find_id
known infos [] = []
known infos ((ip, id) ∷ idx) =
    let rest = known infos idx in if is_some (find_id id infos) then (ip, id) ∷ rest else rest

unfoldable pub flush_removed_peers : Tracker → Tracker
unfolding erase_ids known
flush_removed_peers t =
    let infos = erase_ids t.removed_peers t.tracker_peer_info in
    record {
      removed_peers = [];
      tracker_peer_info = infos;
      ipv4_peer_idx = known infos t.ipv4_peer_idx;
      conn_forward_info = erase_ids t.removed_peers t.conn_forward_info;
    }

abbrev starts : Bytes → Bytes → Bool
starts [] str = true
starts (x ∷ xs) [] = false
starts (x ∷ xs) (y ∷ ys) = let rest = starts xs ys in x == y && rest

-- `str.find(search_str) != npos`
unfoldable pub contains : Bytes → Bytes → Bool
contains search_str [] = starts search_str []
contains search_str (x ∷ xs) =
    let rest = contains search_str xs in starts search_str (x ∷ xs) || rest

-- `limit` is a `size_t` here, as in the comparison.
unfoldable pub find_peers_from :
    Bytes → ℕ → List TrackerPeerInfo → List (PeerId512 × TrackerPeerInfo) → List TrackerPeerInfo
unfolding contains
find_peers_from search_str limit result [] = result
find_peers_from search_str limit result ((id, info) ∷ m) =
    let later : List TrackerPeerInfo → List TrackerPeerInfo =
      λ r. find_peers_from search_str limit r m in
    let pushed = result ++ info ∷ [] in
    if contains search_str info.description
    then if leb limit (length pushed) then pushed else later pushed
    else later result

unfoldable pub find_peers : Tracker → Bytes → ℕ → List TrackerPeerInfo
unfolding find_peers_from
find_peers t search_str limit = find_peers_from search_str limit [] t.tracker_peer_info

-- The forwards of one id: the `break` leaves this loop, and only this loop.
unfoldable pub find_forwards_of :
    PeerId512
    → Bytes
    → ℕ
    → List ConnForwardInfo
    → List (PeerId512 × ConnForwardInfo)
    → List ConnForwardInfo
unfolding id_eq contains
find_forwards_of id search_str limit result [] = result
find_forwards_of id search_str limit result ((k, info) ∷ m) =
    let later : List ConnForwardInfo → List ConnForwardInfo =
      λ r. find_forwards_of id search_str limit r m in
    let pushed = result ++ info ∷ [] in
    if id_eq k id && contains search_str info.description
    then if leb limit (length pushed) then pushed else later pushed
    else later result

unfoldable pub find_forwards_from :
    Tracker → Bytes → ℕ → List ConnForwardInfo → List PeerId512 → List ConnForwardInfo
unfolding find_forwards_of
find_forwards_from t search_str limit result [] = result
find_forwards_from t search_str limit result (id ∷ ids) =
    find_forwards_from t search_str limit
      (find_forwards_of id search_str limit result t.conn_forward_info) ids

unfoldable pub find_forwards : Tracker → List PeerId512 → Bytes → ℕ → List ConnForwardInfo
unfolding find_forwards_from
find_forwards t peer_ids search_str limit = find_forwards_from t search_str limit [] peer_ids

unfoldable pub lower_bound : ℕ → List (ℕ × PeerId512) → ℕ
lower_bound ip [] = 0
lower_bound ip ((k, id) ∷ m) = let rest = lower_bound ip m in if ltb k ip then 1 + rest else 0

unfoldable pub upper_bound : ℕ → List (ℕ × PeerId512) → ℕ
upper_bound ip [] = 0
upper_bound ip ((k, id) ∷ m) = let rest = upper_bound ip m in if leb k ip then 1 + rest else 0

-- A read through an iterator; the end cannot be read.
abbrev pub at_entry :
    {A : Type 0} → Option (ℕ × PeerId512) → (ℕ × PeerId512 → Outcome A) → Outcome A
at_entry none f = fault
at_entry (some e) f = f e

abbrev pub push_found : Option TrackerPeerInfo → List TrackerPeerInfo → List TrackerPeerInfo
push_found none result = result
push_found (some info) result = result ++ info ∷ []

-- What an entry of the index adds to the result.
abbrev pub push_peer : Tracker → ℕ × PeerId512 → List TrackerPeerInfo → List TrackerPeerInfo
push_peer t (ip, id) result = push_found (find_id id t.tracker_peer_info) result

abbrev pub goes_on : Tracker → ℕ → List TrackerPeerInfo → ℕ → ℕ → Bool
goes_on t limit result prev next =
    ltb (length result) limit && (not (prev == 0) && not (next == length t.ipv4_peer_idx))

-- The three loops of `find_ipv4_closest_peers`, where an iterator is its distance from the begin.
unfoldable pub closest_both :
    ℕ → Tracker → ℕ → ℕ → List TrackerPeerInfo → ℕ → ℕ → Outcome (List TrackerPeerInfo × ℕ × ℕ)
unfolding find_id
closest_both zero t ip limit result prev next =
    if goes_on t limit result prev next then hangs else done (result, prev, next)
closest_both (suc n) t ip limit result prev next =
    let later = closest_both n t ip limit in
    if goes_on t limit result prev next
    then (at_entry (get_elem? t.ipv4_peer_idx prev) λ p.
        at_entry (get_elem? t.ipv4_peer_idx next) λ q.
          if ltb (sub32 ip p.0) (sub32 q.0 ip)
          then later (push_peer t p result) (prev - 1) next
          else later (push_peer t q result) prev (next + 1))
    else done (result, prev, next)

unfoldable pub closest_prev :
    ℕ → Tracker → ℕ → List TrackerPeerInfo → Outcome (List TrackerPeerInfo)
unfolding find_id
closest_prev zero t limit result = done result
closest_prev (suc p) t limit result =
    let later = closest_prev p t limit in
    if ltb (length result) limit
    then (at_entry (get_elem? t.ipv4_peer_idx (suc p)) λ e. later (push_peer t e result))
    else done result

-- `n` entries are left from `next` on.
unfoldable pub closest_next :
    ℕ → Tracker → ℕ → List TrackerPeerInfo → ℕ → Outcome (List TrackerPeerInfo)
unfolding find_id
closest_next zero t limit result next = done result
closest_next (suc n) t limit result next =
    let later : List TrackerPeerInfo → Outcome (List TrackerPeerInfo) =
      λ r. closest_next n t limit r (next + 1) in
    if ltb (length result) limit
    then (at_entry (get_elem? t.ipv4_peer_idx next) λ e. later (push_peer t e result))
    else done result

-- Each round of the first loop takes an iterator one step, so the distances are enough fuel.
unfoldable pub find_ipv4_closest_peers : Tracker → ℕ → ℕ → Outcome (List TrackerPeerInfo)
unfolding lower_bound upper_bound closest_both closest_prev closest_next
find_ipv4_closest_peers t ip limit = do
  let size = length t.ipv4_peer_idx
  let first_prev = lower_bound ip t.ipv4_peer_idx
  let first_next = upper_bound ip t.ipv4_peer_idx
  (both, prev, next) ←
      closest_both (first_prev + (size - first_next)) t ip limit [] first_prev first_next
  before ← closest_prev prev t limit both
  closest_next (size - next) t limit before next
