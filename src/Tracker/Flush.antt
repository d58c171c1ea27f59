-- ===== src/Tracker/Flush.antt =====
-- What a flush leaves.
use udp_stuff.Base.{
  ℕ, Option, ◌≡◌, inl, inr, refl, ap, sym, ◌∙◌, arith, fun_ext, not, ◌&&◌, true, filterb, ◌||◌,
  if◌then◌else◌, Bool, false, Bool-cases, List, [], ◌∷◌, none,
}
use udp_stuff.Conn.Handler.{PeerId512}
use udp_stuff.Conn.Auth.{id_eq}
use udp_stuff.Conn.Auth.Accepts.{id_eq_lem}
use udp_stuff.Tracker.{
  Tracker, TrackerPeerInfo, is_some, known, find_id, erase_id, erase_ids, flush_removed_peers,
}

abbrev pub among : PeerId512 → List PeerId512 → Bool
among id [] = false
among id (k ∷ ks) = let rest = among id ks in id_eq k id || rest

module _ {V : Type 0} where
  find-erase_id :
      (k id : PeerId512) (m : List (PeerId512 × V))
      → find_id id (erase_id k m) ≡ (if id_eq k id then none else find_id id m)
  unfolding find_id erase_id
  find-erase_id k id [] = elim (Bool-cases (id_eq k id)) [ inl e ↦ rw e refl | inr e ↦ rw e refl ]
  find-erase_id k id ((j, v) ∷ m) =
      let ih = find-erase_id k id m in
      elim (Bool-cases (id_eq j k)) [
        | inl erased ↦
            let same : id_eq j id ≡ id_eq k id = ap (λ x. id_eq x id) (id_eq_lem j k erased) in
            elim (Bool-cases (id_eq k id)) [
              | inl e ↦ ground (arith, ih, erased, e, same)
              | inr e ↦ ground (arith, ih, erased, e, same)
            ]
        | inr kept ↦ elim (Bool-cases (id_eq k id)) [
          | inl e ↦
              let same : id_eq j k ≡ id_eq j id = ap (id_eq j) (id_eq_lem k id e) in
              ground (arith, ih, kept, e, same)
          | inr e ↦ ground (arith, ih, kept, e)
        ]
      ]

  find-erase_ids :
      (ks : List PeerId512) (id : PeerId512) (m : List (PeerId512 × V))
      → find_id id (erase_ids ks m) ≡ (if among id ks then none else find_id id m)
  unfolding erase_ids
  find-erase_ids [] id m = refl
  find-erase_ids (k ∷ ks) id m =
      let ih = find-erase_ids ks id (erase_id k m) in
      let one = find-erase_id k id m in
      elim (Bool-cases (id_eq k id)) [
        | inl e ↦ ground (arith, ih, one, e)
        | inr e ↦ ground (arith, ih, one, e)
      ]

id_eq_refl : (a : PeerId512) → id_eq a a ≡ true
unfolding id_eq
id_eq_refl [] = refl
id_eq_refl (x ∷ xs) = ground (arith, id_eq_refl xs)

-- Ids are equal both ways.
id_eq_comm : (a b : PeerId512) → id_eq a b ≡ id_eq b a
id_eq_comm a b = elim (Bool-cases (id_eq a b)) [
  | inl here ↦
      ap (λ t. id_eq a t) (sym (id_eq_lem a b here)) ∙ ap (λ t. id_eq t a) (id_eq_lem a b here)
  | inr not_here ↦ elim (Bool-cases (id_eq b a)) [
    | inl there ↦
        ap (λ t. id_eq t b) (sym (id_eq_lem b a there)) ∙ ap (λ t. id_eq b t) (id_eq_lem b a there)
    | inr not_there ↦ not_here ∙ sym not_there
  ]
]

filterb-all : {A : Type 0} (xs : List A) → filterb (λ x. true) xs ≡ xs
filterb-all [] = refl
filterb-all (x ∷ xs) = ap (λ t. x ∷ t) (filterb-all xs)

filterb-same :
    {A : Type 0} (p q : A → Bool) (xs : List A)
    → ((x : A) → p x ≡ q x)
    → filterb p xs ≡ filterb q xs
filterb-same p q xs same = ap (λ f. filterb f xs) (fun_ext same)

module _ {V : Type 0} where
  erase_id-filterb :
      (k : PeerId512) (m : List (PeerId512 × V)) → erase_id k m ≡ filterb (λ e. not (id_eq e.0 k)) m
  unfolding erase_id
  erase_id-filterb k [] = refl
  erase_id-filterb k ((j, v) ∷ m) = elim (Bool-cases (id_eq j k)) [
    | inl equal ↦ rw equal (erase_id-filterb k m)
    | inr differ ↦ rw differ (ap (λ t. (j, v) ∷ t) (erase_id-filterb k m))
  ]

  filterb-among :
      (k : PeerId512) (ks : List PeerId512) (m : List (PeerId512 × V))
      → filterb (λ e. not (among e.0 ks)) (filterb (λ e. not (id_eq e.0 k)) m)
        ≡ filterb (λ e. not (among e.0 (k ∷ ks))) m
  filterb-among k ks [] = refl
  filterb-among k ks ((j, v) ∷ m) =
      let ih = filterb-among k ks m in
      let same : id_eq j k ≡ id_eq k j = id_eq_comm j k in
      elim (Bool-cases (id_eq j k)) [
        | inl equal ↦ ground (arith, ih, equal, same)
        | inr differ ↦ elim (Bool-cases (among j ks)) [
          | inl gone ↦ ground (arith, ih, differ, same, gone)
          | inr stays ↦ ground (arith, ih, differ, same, stays)
        ]
      ]

  erase_ids-filterb :
      (ks : List PeerId512) (m : List (PeerId512 × V))
      → erase_ids ks m ≡ filterb (λ e. not (among e.0 ks)) m
  unfolding erase_ids
  erase_ids-filterb [] m = sym (filterb-all m)
  erase_ids-filterb (k ∷ ks) m =
      erase_ids-filterb ks (erase_id k m)
      ∙ ap (filterb (λ e. not (among e.0 ks))) (erase_id-filterb k m)
      ∙ filterb-among k ks m

known-filterb :
    (infos : List (PeerId512 × TrackerPeerInfo)) (idx : List (ℕ × PeerId512))
    → known infos idx ≡ filterb (λ e. is_some (find_id e.1 infos)) idx
unfolding known
known-filterb infos [] = refl
known-filterb infos ((ip, id) ∷ idx) = elim (Bool-cases (is_some (find_id id infos))) [
  | inl there ↦ rw there (ap (λ t. (ip, id) ∷ t) (known-filterb infos idx))
  | inr gone ↦ rw gone (known-filterb infos idx)
]

some-if :
    {V : Type 0} (c : Bool) (o : Option V) → is_some (if c then none else o) ≡ (not c && is_some o)
some-if true o = refl
some-if false o = refl

-- `flush_removed_peers` leaves, in their order, exactly the peers and the forwards (all of an id) whose
-- id was not removed, and exactly the entries of the index of addresses whose peer was not removed and
-- is known. No id is left to be removed.
pub flush_removed_peers_lem :
    (t : Tracker)
    → ((flush_removed_peers t).tracker_peer_info
        ≡ filterb (λ e. not (among e.0 t.removed_peers)) t.tracker_peer_info)
      × ((flush_removed_peers t).conn_forward_info
          ≡ filterb (λ e. not (among e.0 t.removed_peers)) t.conn_forward_info)
      × ((flush_removed_peers t).ipv4_peer_idx
          ≡ filterb
              (λ e. not (among e.1 t.removed_peers) && is_some (find_id e.1 t.tracker_peer_info))
              t.ipv4_peer_idx)
      × ((flush_removed_peers t).removed_peers ≡ [])
unfolding flush_removed_peers
flush_removed_peers_lem t = (
  erase_ids-filterb t.removed_peers t.tracker_peer_info,
  erase_ids-filterb t.removed_peers t.conn_forward_info,
  known-filterb _ t.ipv4_peer_idx
      ∙ filterb-same _ _ t.ipv4_peer_idx (λ e.
        ap is_some (find-erase_ids t.removed_peers e.1 t.tracker_peer_info)
        ∙ some-if (among e.1 t.removed_peers) (find_id e.1 t.tracker_peer_info)),
  refl,
)
