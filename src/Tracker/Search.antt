-- ===== src/Tracker/Search.antt =====
-- What `find_peers` finds.
use udp_stuff.Base.{
  ℕ, zero, suc, ◌+◌, ◌-◌, ◌≡◌, refl, ap, sym, arith, ◌∙◌, max, leb, if◌then◌else◌, true, false,
  Bool-cases, inl, inr, List, [], ◌∷◌, ◌++◌, append_assoc, append-nil, Bytes, length, length-append,
  take,
}
use udp_stuff.Conn.Handler.{PeerId512}
use udp_stuff.Tracker.{TrackerPeerInfo, Tracker, contains, find_peers_from, find_peers}

-- All the peers whose description contains the text, in the order of the map.
abbrev pub matching : Bytes → List (PeerId512 × TrackerPeerInfo) → List TrackerPeerInfo
matching search_str [] = []
matching search_str ((id, info) ∷ m) =
    let rest = matching search_str m in
    if contains search_str info.description then info ∷ rest else rest

-- There is room for `k + 1` more.
find_peers_from_lem :
    (search_str : Bytes) (limit : ℕ) (k : ℕ) (result : List TrackerPeerInfo)
    (m : List (PeerId512 × TrackerPeerInfo))
    → max 1 limit ≡ length result + suc k
    → find_peers_from search_str limit result m ≡ result ++ take (suc k) (matching search_str m)
unfolding find_peers_from
find_peers_from_lem search_str limit k result [] h = sym (append-nil result)
find_peers_from_lem search_str limit zero result ((id, info) ∷ m) h =
    let n = length-append result (info ∷ []) in
    let full : leb limit (length (result ++ info ∷ [])) ≡ true = ground arith in
    elim (Bool-cases (contains search_str info.description)) [
      | inl match ↦ rw (match, full) refl
      | inr no_match ↦ rw no_match (find_peers_from_lem search_str limit zero result m h)
    ]
find_peers_from_lem search_str limit (suc k) result ((id, info) ∷ m) h =
    let n = length-append result (info ∷ []) in
    let room : leb limit (length (result ++ info ∷ [])) ≡ false = ground arith in
    elim (Bool-cases (contains search_str info.description)) [
      | inl match ↦
          rw (match, room)
            (find_peers_from_lem search_str limit k (result ++ info ∷ []) m (omega arith)
              ∙ append_assoc result (info ∷ []) (take (suc k) (matching search_str m)))
      | inr no_match ↦ rw no_match (find_peers_from_lem search_str limit (suc k) result m h)
    ]

-- `find_peers` gives the first matching peers of the map, as many as the limit says, but never fewer than one
-- where there is one: a limit of 0 counts as 1.
pub find_peers_lem :
    (t : Tracker) (search_str : Bytes) (limit : ℕ)
    → find_peers t search_str limit ≡ take (max 1 limit) (matching search_str t.tracker_peer_info)
unfolding find_peers
find_peers_lem t search_str limit =
    let all = matching search_str t.tracker_peer_info in
    find_peers_from_lem search_str limit (max 1 limit - 1) [] t.tracker_peer_info (omega arith)
    ∙ ap (λ k. take k all) {x = suc (max 1 limit - 1)} {y = max 1 limit} (omega arith)
