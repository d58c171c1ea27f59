-- ===== src/Lock/Refs/Counted.antt =====
-- The count of each object is the number of its references.
use udp_stuff.Base.{
  ℕ, zero, suc, ◌+◌, ◌-◌, ◌^◌, ◌≤◌, ◌<◌, ◌≡◌, refl, sym, ap, ◌∙◌, arith, ◌==◌, true, false,
  Bool-cases, inl, inr, List, [], ◌∷◌, Option, none, some, get_elem?, set, get_elem?-set,
  get_elem?-set_same, ℕ_discrete, ◌++◌, find, assign, erase, find-assign, find-erase, sub32, u32,
  length, done,
}
use udp_stuff.Lock.Threads.{total-set, total-moved, total, total-get, total-add, total-taken}
use udp_stuff.Net.Guard.Once.{holds}
use udp_stuff.Lock.Refs.{
  Store, inc_ref, release, clear, copy_assign, move_assign, construct, copy_construct,
  move_construct, Op, constructs, copies, moves, clears, copy_assigns, move_assigns, apply,
}

-- An object with no reference is gone.
abbrev pub counted : ℕ → Option ℕ
counted zero = none
counted (suc n) = some (suc n)

-- Each object is there as long as `f` counts references to it, with that count.
abbrev pub Counts : (ℕ → ℕ) → List (ℕ × ℕ) → Type 0
Counts f objects = (o : ℕ) → find o objects ≡ counted (f o)

counted-positive : (n : ℕ) → 1 ≤ n → counted n ≡ some n
counted-positive zero h = absurd (omega arith)
counted-positive (suc n) h = refl

counted-zero : (n : ℕ) → n ≡ 0 → counted n ≡ none
counted-zero zero h = refl
counted-zero (suc n) h = absurd (omega arith)

module _ (f : ℕ → ℕ) (p : ℕ) (objects : List (ℕ × ℕ)) (c : Counts f objects) where
  found : ((o : ℕ) → holds o (some p) ≤ f o) → (1 ≤ f p) × (find p objects ≡ some (f p))
  found there =
      let h = there p in
      let same : (p == p) ≡ true = ground arith in
      let one : 1 ≤ f p = ground arith in (one, c p ∙ counted-positive (f p) one)

  -- A count that is changed is right if it is right for the object.
  assign-Counts :
      (v : ℕ) (g : ℕ → ℕ)
      → some v ≡ counted (g p)
      → ((o : ℕ) → (p == o) ≡ false → g o ≡ f o)
      → Counts g (assign p v objects)
  assign-Counts v g here others o = elim (Bool-cases (p == o)) [
    | inl equal ↦
        let same : p ≡ o = ground arith in
        find-assign p o v objects ∙ rw equal (here ∙ ap (λ k. counted (g k)) same)
    | inr differ ↦ find-assign p o v objects ∙ rw differ (c o ∙ ap counted (sym (others o differ)))
  ]

  erase-Counts :
      (g : ℕ → ℕ)
      → none ≡ counted (g p)
      → ((o : ℕ) → (p == o) ≡ false → g o ≡ f o)
      → Counts g (erase p objects)
  erase-Counts g here others o = elim (Bool-cases (p == o)) [
    | inl equal ↦
        let same : p ≡ o = ground arith in
        find-erase p o objects ∙ rw equal (here ∙ ap (λ k. counted (g k)) same)
    | inr differ ↦ find-erase p o objects ∙ rw differ (c o ∙ ap counted (sym (others o differ)))
  ]

inc_ref_lem :
    (f : ℕ → ℕ) (p : Option ℕ) (objects : List (ℕ × ℕ))
    → Counts f objects
    → ((o : ℕ) → holds o p ≤ f o)
    → ((o : ℕ) → f o + 1 < 2 ^ 32)
    → (t : List (ℕ × ℕ)) × (inc_ref p objects ≡ done t) × Counts (λ o. f o + holds o p) t
unfolding inc_ref
inc_ref_lem f none objects c there bound =
    (objects, refl, λ o. let z : f o + 0 ≡ f o = omega arith in c o ∙ ap counted (sym z))
inc_ref_lem f (some p) objects c there bound =
    let (one, here) = found f p objects c there in
    let small = bound p in
    let same : (p == p) ≡ true = ground arith in
    let v : u32 (f p + 1) ≡ f p + 1 = omega arith in
    (
      assign p (u32 (f p + 1)) objects,
      rw (inc_ref, here) refl,
      assign-Counts f p objects c (u32 (f p + 1)) (λ o. f o + holds o (some p))
          (rw (v, same) (sym (counted-positive (f p + 1) (omega arith))))
          (λ o differ. rw differ (omega arith)),
    )

release_lem :
    (f : ℕ → ℕ) (p : Option ℕ) (objects : List (ℕ × ℕ))
    → Counts f objects
    → ((o : ℕ) → holds o p ≤ f o)
    → ((o : ℕ) → f o < 2 ^ 32)
    → (t : List (ℕ × ℕ)) × (release p objects ≡ done t) × Counts (λ o. f o - holds o p) t
unfolding release
release_lem f none objects c there bound =
    (objects, refl, λ o. let z : f o - 0 ≡ f o = omega arith in c o ∙ ap counted (sym z))
release_lem f (some p) objects c there bound =
    let (one, here) = found f p objects c there in
    let small = bound p in
    let same : (p == p) ≡ true = ground arith in
    let v : sub32 (f p) 1 ≡ f p - 1 = omega arith in
    elim (Bool-cases (sub32 (f p) 1 == 0)) [
      | inl last ↦ (
        erase p objects,
        rw (release, here, last) refl,
        erase-Counts f p objects c (λ o. f o - holds o (some p))
            (rw same (sym (counted-zero (f p - 1) (ground arith))))
            (λ o differ. rw differ (omega arith)),
      )
      | inr more ↦ (
        assign p (sub32 (f p) 1) objects,
        rw (release, here, more) refl,
        assign-Counts f p objects c (sub32 (f p) 1) (λ o. f o - holds o (some p))
            (rw (v, same) (sym (counted-positive (f p - 1) (ground arith))))
            (λ o differ. rw differ (omega arith)),
      )
    ]

total-length : (o : ℕ) (vs : List (Option ℕ)) → total (holds o) vs ≤ length vs
total-length o [] = omega arith
total-length o (none ∷ vs) = let h = total-length o vs in omega arith
total-length o (some p ∷ vs) = let h = total-length o vs in ground arith

Counts-same :
    (f g : ℕ → ℕ) (objects : List (ℕ × ℕ))
    → ((o : ℕ) → f o ≡ g o)
    → Counts f objects
    → Counts g objects
Counts-same f g objects same c o = c o ∙ ap counted (same o)

-- A variable that is there
abbrev pub Has : List (Option ℕ) → ℕ → Type 0
Has vs i = (p : Option ℕ) × (get_elem? vs i ≡ some p)

Has-set :
    (vs : List (Option ℕ)) (i j : ℕ) (p q : Option ℕ)
    → get_elem? vs i ≡ some p
    → Has vs j
    → Has (set vs i q) j
Has-set vs i j p q here (r, there) = elim (ℕ_discrete i j) [
  | yes same ↦ (q, ap (get_elem? (set vs i q)) (sym same) ∙ get_elem?-set_same vs i p q here)
  | no differ ↦ (r, get_elem?-set vs i j q differ ∙ there)
]

module _ (extra : ℕ → ℕ) where
  -- The references to each object are those that are held elsewhere, and the variables.
  abbrev pub refs : List (Option ℕ) → ℕ → ℕ
  refs vs o = extra o + total (holds o) vs

  abbrev pub Kept : Store → Type 0
  Kept s = Counts (refs s.vars) s.objects

  abbrev pub Allowed : Store → Op → Type 0
  Allowed s (constructs p) = (o : ℕ) → holds o p ≤ refs s.vars o
  Allowed s (copies j) = Has s.vars j
  Allowed s (moves j) = Has s.vars j
  Allowed s (clears i) = Has s.vars i
  Allowed s (copy_assigns i j) = Has s.vars i × Has s.vars j
  Allowed s (move_assigns i j) = Has s.vars i × Has s.vars j

  module _ (s : Store) (bound : (o : ℕ) → extra o + length s.vars + 1 < 2 ^ 32) (k : Kept s) where
    construct_lem :
        (p : Option ℕ)
        → ((o : ℕ) → holds o p ≤ refs s.vars o)
        → (t : Store) × (construct s p ≡ done t) × Kept t
    unfolding construct
    construct_lem p there =
        let (objects, e, c) =
          inc_ref_lem (refs s.vars) p s.objects k there
            (λ o. let b = bound o in let t = total-length o s.vars in omega arith) in
        (
          record { objects = objects; vars = s.vars ++ p ∷ [] },
          rw e refl,
          Counts-same _ _ objects (λ o. let a = total-add (holds o) s.vars p in omega arith) c,
        )

    clear_lem :
        (i : ℕ) (p : Option ℕ)
        → get_elem? s.vars i ≡ some p
        → (t : List (ℕ × ℕ)) × (clear s i ≡ done (record { objects = t; vars = set s.vars i none }))
          × Counts (refs (set s.vars i none)) t
    unfolding clear
    clear_lem i p here =
        let (objects, e, c) =
          release_lem (refs s.vars) p s.objects k
            (λ o. let g = total-get (holds o) s.vars i p here in omega arith)
            (λ o. let b = bound o in let t = total-length o s.vars in omega arith) in
        (
          objects,
          rw (here, e) refl,
          Counts-same _ _ objects
              (λ o. let a = total-taken (holds o) none refl s.vars i p here in omega arith) c,
        )

    -- Every operation on variables that are there, and every construction on an object that is there,
    -- returns, and keeps the counts.
    pub apply-Kept : (op : Op) → Allowed s op → (t : Store) × (apply s op ≡ done t) × Kept t
    unfolding apply copy_construct move_construct copy_assign move_assign
    apply-Kept (constructs p) there = construct_lem p there
    apply-Kept (copies j) (p, here) =
        let (t, e, c) =
          construct_lem p (λ o. let g = total-get (holds o) s.vars j p here in omega arith) in
        (t, rw here e, c)
    apply-Kept (moves j) (p, here) = (
      record s { vars = set s.vars j none ++ p ∷ [] },
      rw here refl,
      Counts-same _ _ s.objects
          (λ o.
            let a = total-add (holds o) (set s.vars j none) p in
            let b = total-taken (holds o) none refl s.vars j p here in omega arith)
          k,
    )
    apply-Kept (clears i) (p, here) = let (t, e, c) = clear_lem i p here in (_, e, c)
    apply-Kept (copy_assigns i j) ((p, here), (q, there)) =
        let (t, e, c) = clear_lem i p here in
        let vs = set s.vars i none in
        let empty_ = get_elem?-set_same s.vars i p none here in
        let (r, other) = Has-set s.vars i j p none here (q, there) in
        let (u, e', c') =
          inc_ref_lem (refs vs) r t c (λ o. let g = total-get (holds o) vs j r other in omega arith)
            (λ o.
              let b = bound o in
              let l = total-length o s.vars in
              let a = total-taken (holds o) none refl s.vars i p here in omega arith) in
        (
          record { objects = u; vars = set vs i r },
          rw (e, other, e') refl,
          Counts-same _ _ u (λ o. let a = total-set (holds o) vs i none r empty_ in omega arith) c',
        )
    apply-Kept (move_assigns i j) ((p, here), (q, there)) =
        let (t, e, c) = clear_lem i p here in
        let vs = set s.vars i none in
        let empty_ = get_elem?-set_same s.vars i p none here in
        let (r, other) = Has-set s.vars i j p none here (q, there) in
        (
          record { objects = t; vars = set (set vs i r) j none },
          rw (e, other) refl,
          Counts-same _ _ t
              (λ o.
                let a = total-moved (holds o) none refl vs i j none r empty_ other in omega arith)
              c,
        )
