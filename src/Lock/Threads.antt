-- ===== src/Lock/Threads.antt =====
-- Sums over the elements of a list: threads at their places, guards with what they hold.
use udp_stuff.Base.{
  ℕ, zero, suc, ◌+◌, ◌≤◌, ◌≡◌, ◌≢◌, refl, ap, arith, List, [], ◌∷◌, some, get_elem?, set, ◌++◌,
  subst, ◌∙◌, ℕ_discrete, get_elem?-set, get_elem?-set_same,
}

module _ {P : Type 0} where
  -- A sum over all threads.
  abbrev pub total : (P → ℕ) → List P → ℕ
  total f [] = 0
  total f (p ∷ ps) = f p + total f ps

  -- A thread that moves changes a sum by what it counts for.
  pub total-set :
      (f : P → ℕ) (ps : List P) (i : ℕ) (p q : P)
      → get_elem? ps i ≡ some p
      → total f (set ps i q) + f p ≡ total f ps + f q
  total-set f [] i p q e = cc
  total-set f (x ∷ ps) zero p q e =
      let same : x ≡ p = cc in let g : f x ≡ f p = ap f same in omega arith
  total-set f (x ∷ ps) (suc i) p q e = let ih = total-set f ps i p q e in omega arith

  pub total-get :
      (f : P → ℕ) (ps : List P) (i : ℕ) (p : P) → get_elem? ps i ≡ some p → f p ≤ total f ps
  total-get f [] i p e = cc
  total-get f (x ∷ ps) zero p e =
      let same : x ≡ p = cc in let g : f x ≡ f p = ap f same in omega arith
  total-get f (x ∷ ps) (suc i) p e = let ih = total-get f ps i p e in omega arith

  pub total-pair :
      (f : P → ℕ) (ps : List P) (i j : ℕ) (p q : P)
      → get_elem? ps i ≡ some p
      → get_elem? ps j ≡ some q
      → i ≢ j
      → f p + f q ≤ total f ps
  total-pair f [] i j p q a b n = cc
  total-pair f (x ∷ ps) zero zero p q a b n = absurd (n refl)
  total-pair f (x ∷ ps) zero (suc j) p q a b n =
      let same : x ≡ p = cc in
      let g : f x ≡ f p = ap f same in let h = total-get f ps j q b in omega arith
  total-pair f (x ∷ ps) (suc i) zero p q a b n =
      let same : x ≡ q = cc in
      let g : f x ≡ f q = ap f same in let h = total-get f ps i p a in omega arith
  total-pair f (x ∷ ps) (suc i) (suc j) p q a b n =
      let h = total-pair f ps i j p q a b (λ e. n (omega arith)) in omega arith

  total-append : (f : P → ℕ) (ps qs : List P) → total f (ps ++ qs) ≡ total f ps + total f qs
  total-append f [] qs = omega arith
  total-append f (p ∷ ps) qs = let ih = total-append f ps qs in omega arith

  pub total-add : (f : P → ℕ) (ps : List P) (p : P) → total f (ps ++ p ∷ []) ≡ total f ps + f p
  total-add f ps p = let t = total-append f ps (p ∷ []) in omega arith

  -- An element that moves out of its place, where `gone` is left
  pub total-taken :
      (f : P → ℕ) (gone : P)
      → f gone ≡ 0
      → (ps : List P) (i : ℕ) (p : P) → get_elem? ps i ≡ some p
      → total f (set ps i gone) + f p ≡ total f ps
  total-taken f gone z ps i p e = let t = total-set f ps i p gone e in omega arith

  -- An element is put over another one, and is gone from its own place, which may be the same.
  pub total-moved :
      (f : P → ℕ) (gone : P)
      → f gone ≡ 0
      → (ps : List P) (i j : ℕ) (own other : P) → get_elem? ps i ≡ some own
      → get_elem? ps j ≡ some other
      → total f (set (set ps i other) j gone) + f own ≡ total f ps
  total-moved f gone z ps i j own other a b =
      let first = total-set f ps i own other a in
      elim (ℕ_discrete i j) [
        | yes same ↦
            let there =
              subst (λ k. get_elem? (set ps i other) k ≡ some other) same
                (get_elem?-set_same ps i own other a) in
            let equal : own ≡ other = cc in
            let counts = ap f equal in
            let second = total-taken f gone z (set ps i other) j other there in omega arith
        | no differ ↦
            let there = get_elem?-set ps i j other differ ∙ b in
            let second = total-taken f gone z (set ps i other) j other there in omega arith
      ]
