-- ===== src/Tracker/Closest.antt =====
-- Where `find_ipv4_closest_peers` starts.
use udp_stuff.Base.{
  ℕ, zero, suc, ◌+◌, ◌-◌, ◌≤◌, ◌<◌, ◌≡◌, refl, arith, ltb, leb, true, false, List, [], ◌∷◌,
  get_elem?-past, length, done, fault,
}
use udp_stuff.Conn.Handler.{PeerId512}
use udp_stuff.Tracker.{
  TrackerPeerInfo, Tracker, lower_bound, upper_bound, closest_both, closest_prev,
  find_ipv4_closest_peers, goes_on,
}

abbrev pub AllBelow : ℕ → List (ℕ × PeerId512) → Type 0
AllBelow ip [] = Unit
AllBelow ip ((k, id) ∷ m) = (k < ip) × AllBelow ip m

bounds-AllBelow :
    (ip : ℕ) (m : List (ℕ × PeerId512))
    → AllBelow ip m
    → (lower_bound ip m ≡ length m) × (upper_bound ip m ≡ length m)
unfolding lower_bound upper_bound
bounds-AllBelow ip [] h = (refl, refl)
bounds-AllBelow ip ((k, id) ∷ m) h =
    let ih = bounds-AllBelow ip m h.1 in
    let below = h.0 in
    let a : ltb k ip ≡ true = ground (arith, below) in
    let b : leb k ip ≡ true = ground (arith, below) in
    (rw (a, ih.0) (omega arith), rw (b, ih.1) (omega arith))

closest_both-stops :
    (n : ℕ) (t : Tracker) (ip limit : ℕ) (result : List TrackerPeerInfo) (prev : ℕ)
    → closest_both n t ip limit result prev (length t.ipv4_peer_idx)
      ≡ done (result, prev, length t.ipv4_peer_idx)
unfolding closest_both
closest_both-stops zero t ip limit result prev =
    let stop : goes_on t limit result prev (length t.ipv4_peer_idx) ≡ false = ground arith in
    rw stop refl
closest_both-stops (suc n) t ip limit result prev =
    let stop : goes_on t limit result prev (length t.ipv4_peer_idx) ≡ false = ground arith in
    rw stop refl

closest_prev-end :
    (p : ℕ) (t : Tracker) (limit : ℕ)
    → length t.ipv4_peer_idx ≤ p
    → 0 < p
    → 0 < limit
    → closest_prev p t limit [] ≡ fault
unfolding closest_prev
closest_prev-end zero t limit h n l = absurd (omega arith)
closest_prev-end (suc p) t limit h n l =
    let past = get_elem?-past t.ipv4_peer_idx (suc p) h in
    let room : ltb 0 limit ≡ true = ground arith in rw (room, past) refl

-- If there are peers, and the address asked for is above all of theirs, `find_ipv4_closest_peers` reads the
-- end of the index, for every limit above 0.
pub find_ipv4_closest_peers-past_all :
    (t : Tracker) (ip limit : ℕ)
    → 0 < length t.ipv4_peer_idx
    → AllBelow ip t.ipv4_peer_idx
    → 0 < limit
    → find_ipv4_closest_peers t ip limit ≡ fault
unfolding find_ipv4_closest_peers
find_ipv4_closest_peers-past_all t ip limit h b l =
    let bounds = bounds-AllBelow ip t.ipv4_peer_idx b in
    let n = length t.ipv4_peer_idx in
    let ends = closest_prev-end n t limit (omega arith) h l in
    rw (bounds.0, bounds.1, closest_both-stops (n + (n - n)) t ip limit [] n, ends) refl
