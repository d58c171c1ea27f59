-- ===== src/Net/Guard/Once.antt =====
-- A handle that a guard takes over is given back once, or handed out.
use udp_stuff.Base.{
  ℕ, ◌+◌, ◌≡◌, refl, ap, subst, arith, ◌∙◌, ◌==◌, if◌then◌else◌, List, [], ◌∷◌, Option, none, some,
  get_elem?, set, get_elem?-set, get_elem?-set_same, Outcome, done, >>=-eq-done, ℕ_discrete,
}
use udp_stuff.Lock.Threads.{total, total-set, total-add, total-taken, total-moved}
use udp_stuff.Net.Guard.{
  Event, owned, given_back, handed_out, World, give_back, hand_out, own, at_guard, Op, construct,
  move_construct, move_assign, handle, destroy, apply_common, assign_socket, assign_pointer,
  apply_socket, apply_pointer, apply_all, destroy_all, empty,
}

abbrev pub taken_over : ℕ → Event → ℕ
taken_over x (owned h) = if h == x then 1 else 0
taken_over x (given_back h) = 0
taken_over x (handed_out h) = 0

abbrev pub let_go : ℕ → Event → ℕ
let_go x (owned h) = 0
let_go x (given_back h) = if h == x then 1 else 0
let_go x (handed_out h) = if h == x then 1 else 0

abbrev pub holds : ℕ → Option ℕ → ℕ
holds x none = 0
holds x (some h) = if h == x then 1 else 0

-- What was taken over and is not let go is held.
abbrev Kept : ℕ → World → Type 0
Kept x w = total (taken_over x) w.log ≡ total (let_go x) w.log + total (holds x) w.guards

module _ (x : ℕ) where
  pub give_back_lem :
      (g : Option ℕ) (log : List Event)
      → (total (taken_over x) (give_back g log) ≡ total (taken_over x) log)
        × (total (let_go x) (give_back g log) ≡ holds x g + total (let_go x) log)
  give_back_lem none log = (refl, omega arith)
  give_back_lem (some h) log = (omega arith, refl)

  hand_out_lem :
      (g : Option ℕ) (log : List Event)
      → (total (taken_over x) (hand_out g log) ≡ total (taken_over x) log)
        × (total (let_go x) (hand_out g log) ≡ holds x g + total (let_go x) log)
  hand_out_lem none log = (refl, omega arith)
  hand_out_lem (some h) log = (omega arith, refl)

  pub own_lem :
      (g : Option ℕ) (log : List Event)
      → (total (taken_over x) (own g log) ≡ holds x g + total (taken_over x) log)
        × (total (let_go x) (own g log) ≡ total (let_go x) log)
  own_lem none log = (omega arith, refl)
  own_lem (some h) log = (refl, omega arith)

  at_guard_lem :
      (o : Option (Option ℕ)) (v : World) (f : Option ℕ → Outcome World)
      → at_guard o f ≡ done v
      → (g : Option ℕ) × (o ≡ some g) × (f g ≡ done v)
  at_guard_lem none v f e = cc
  at_guard_lem (some g) v f e = (g, refl, e)

  world_of : World → Outcome World → World
  world_of d (done w) = w
  world_of d m = d

  Kept-done : (u v : World) → done u ≡ done v → Kept x u → Kept x v
  unfolding world_of
  Kept-done u v e b = subst (Kept x) (ap (world_of u) e) b

  apply_common-Kept :
      (op : Op) (w v : World) (assign : ℕ → ℕ → Outcome World)
      → ((i j : ℕ) → assign i j ≡ done v → Kept x v)
      → apply_common w op assign ≡ done v
      → Kept x w
      → Kept x v
  unfolding apply_common
  apply_common-Kept (construct h) w v assign assigned e b =
      let t = total-add (holds x) w.guards h in
      let c = own_lem h w.log in Kept-done _ v e (omega (arith, c.0, c.1))
  apply_common-Kept (move_construct i) w v assign assigned e b =
      let (g, there, e') = at_guard_lem _ v _ e in
      let t = total-add (holds x) (set w.guards i none) g in
      let s = total-taken (holds x) none refl w.guards i g there in Kept-done _ v e' (omega arith)
  apply_common-Kept (move_assign i j) w v assign assigned e b = assigned i j e
  apply_common-Kept (handle i) w v assign assigned e b =
      let (g, there, e') = at_guard_lem _ v _ e in
      let s = total-taken (holds x) none refl w.guards i g there in
      let c = hand_out_lem g w.log in Kept-done _ v e' (omega (arith, c.0, c.1))
  apply_common-Kept (destroy i) w v assign assigned e b =
      let (g, there, e') = at_guard_lem _ v _ e in
      let s = total-taken (holds x) none refl w.guards i g there in
      let c = give_back_lem g w.log in Kept-done _ v e' (omega (arith, c.0, c.1))

  assign_pointer-Kept :
      (w v : World) (i j : ℕ) → Kept x w → assign_pointer w i j ≡ done v → Kept x v
  unfolding assign_pointer
  assign_pointer-Kept w v i j b e =
      let (g, here, e1) = at_guard_lem _ v _ e in
      let (h, there, e2) = at_guard_lem _ v _ e1 in
      let s = total-moved (holds x) none refl w.guards i j g h here there in
      let c = give_back_lem g w.log in Kept-done _ v e2 (omega (arith, c.0, c.1))

  -- The place that was cleared is still empty when the other is.
  still_none :
      (gs : List (Option ℕ)) (i j : ℕ) (g : Option ℕ)
      → get_elem? gs i ≡ some g
      → (h : Option ℕ) → get_elem? (set gs i none) j ≡ some h
      → get_elem? (set (set gs i none) j none) i ≡ some none
  still_none gs i j g here h there = elim (ℕ_discrete j i) [
    | yes same ↦
        subst (λ k. get_elem? (set (set gs i none) j none) k ≡ some none) same
          (get_elem?-set_same (set gs i none) j h none there)
    | no differ ↦
        get_elem?-set (set gs i none) j i none differ ∙ get_elem?-set_same gs i g none here
  ]

  assign_socket-Kept : (w v : World) (i j : ℕ) → Kept x w → assign_socket w i j ≡ done v → Kept x v
  unfolding assign_socket
  assign_socket-Kept w v i j b e =
      let (g, here, e1) = at_guard_lem _ v _ e in
      let (h, there, e2) = at_guard_lem _ v _ e1 in
      let first = total-taken (holds x) none refl w.guards i g here in
      let second = total-taken (holds x) none refl (set w.guards i none) j h there in
      let third =
        total-set (holds x) (set (set w.guards i none) j none) i none h
          (still_none w.guards i j g here h there) in
      let c = give_back_lem g w.log in Kept-done _ v e2 (omega (arith, c.0, c.1))

  apply_all-Kept :
      (apply : World → Op → Outcome World)
      → ((op : Op) (w v : World) → apply w op ≡ done v → Kept x w → Kept x v)
      → (ops : List Op) (w v : World) → apply_all apply w ops ≡ done v
      → Kept x w
      → Kept x v
  unfolding apply_all
  apply_all-Kept apply keeps [] w v e b = Kept-done w v e b
  apply_all-Kept apply keeps (op ∷ ops) w v e b =
      let (u, a, r) = >>=-eq-done (apply w op) _ e in
      apply_all-Kept apply keeps ops u v r (keeps op w u a b)

  destroy_all_lem :
      (gs : List (Option ℕ)) (log : List Event)
      → total (taken_over x) log ≡ total (let_go x) log + total (holds x) gs
      → total (taken_over x) (destroy_all gs log) ≡ total (let_go x) (destroy_all gs log)
  unfolding destroy_all
  destroy_all_lem [] log b = omega arith
  destroy_all_lem (g ∷ gs) log b =
      let c = give_back_lem g log in destroy_all_lem gs (give_back g log) (omega (arith, c.0, c.1))

  -- Whatever guards of SocketGuard and of GuardPointer are made, moved, assigned (also to
  -- themselves), asked for their handle and destroyed, at the end of the scope every handle was given
  -- back or handed out as often as it was taken over.
  pub destroy_all-once :
      (ops : List Op) (sockets pointers : World)
      → apply_all apply_socket empty ops ≡ done sockets
      → apply_all apply_pointer empty ops ≡ done pointers
      → (total (taken_over x) (destroy_all sockets.guards sockets.log)
          ≡ total (let_go x) (destroy_all sockets.guards sockets.log))
        × (total (taken_over x) (destroy_all pointers.guards pointers.log)
            ≡ total (let_go x) (destroy_all pointers.guards pointers.log))
  unfolding apply_socket apply_pointer
  destroy_all-once ops sockets pointers es ep = (
    destroy_all_lem sockets.guards sockets.log (
        apply_all-Kept apply_socket
          (λ op u v e b.
            apply_common-Kept op u v (assign_socket u) (λ i j. assign_socket-Kept u v i j b) e b)
          ops empty sockets es refl),
    destroy_all_lem pointers.guards pointers.log (
        apply_all-Kept apply_pointer
          (λ op u v e b.
            apply_common-Kept op u v (assign_pointer u) (λ i j. assign_pointer-Kept u v i j b) e b)
          ops empty pointers ep refl),
  )
