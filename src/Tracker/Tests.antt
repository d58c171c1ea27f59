-- ===== src/Tracker/Tests.antt =====
-- A tracker of two peers.
use udp_stuff.Base.{ℕ, ◌≡◌, refl, max, [], ◌∷◌, take, done}
use udp_stuff.Conn.Peers.{PeerAddressData, udp_v4}
use udp_stuff.Tracker.{
  TrackerPeerInfo, ConnForwardInfo, Tracker, find_id, find_peers, find_forwards,
  flush_removed_peers, find_ipv4_closest_peers,
}
use udp_stuff.Conn.Auth.{id_eq}
use udp_stuff.Tracker.Search.{matching, find_peers_lem}
use udp_stuff.Tracker.Flush.{flush_removed_peers_lem}

abbrev address : PeerAddressData
address = record { ip = 1; port = 2 }

abbrev peer : ℕ → TrackerPeerInfo
peer n = record { peer_id = n ∷ []; type = udp_v4; address = address; description = 5 ∷ n ∷ [] }

abbrev forward : ℕ → ConnForwardInfo
forward n = record {
  peer_id = n ∷ [];
  address_type = udp_v4;
  start_address = address;
  end_address = address;
  description = 5 ∷ n ∷ [];
}

abbrev tracker : Tracker
tracker = record {
  removed_peers = (2 ∷ []) ∷ [];
  tracker_peer_info = (1 ∷ [], peer 1) ∷ (2 ∷ [], peer 2) ∷ [];
  ipv4_peer_idx = (10, 1 ∷ []) ∷ (20, 2 ∷ []) ∷ [];
  conn_forward_info = (1 ∷ [], forward 1) ∷ (2 ∷ [], forward 2) ∷ [];
}

limit_passed :
    find_forwards tracker ((1 ∷ []) ∷ (2 ∷ []) ∷ []) (5 ∷ []) 1 ≡ forward 1 ∷ forward 2 ∷ []
unfolding find_forwards
limit_passed = refl

-- The first entry of the index is not met, whichever address is asked for.
between_found : find_ipv4_closest_peers tracker 15 5 ≡ done (peer 2 ∷ peer 2 ∷ [])
unfolding find_ipv4_closest_peers
between_found = refl

find_peers_example :
    find_peers tracker (5 ∷ []) 0 ≡ take (max 1 0) (matching (5 ∷ []) tracker.tracker_peer_info)
find_peers_example = find_peers_lem tracker (5 ∷ []) 0

flush_removed_peers_example :
    ((flush_removed_peers tracker).tracker_peer_info ≡ (1 ∷ [], peer 1) ∷ [])
    × ((flush_removed_peers tracker).conn_forward_info ≡ (1 ∷ [], forward 1) ∷ [])
    × ((flush_removed_peers tracker).ipv4_peer_idx ≡ (10, 1 ∷ []) ∷ [])
    × ((flush_removed_peers tracker).removed_peers ≡ [])
unfolding id_eq find_id
flush_removed_peers_example = flush_removed_peers_lem tracker
