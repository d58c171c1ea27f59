-- ===== src/Lock/Scope/Once.antt =====
-- Each lock that a guard took is given back once.
use udp_stuff.Base.{
  ℕ, ◌+◌, ◌≡◌, refl, ap, subst, arith, ◌==◌, if◌then◌else◌, List, [], ◌∷◌, Option, none, some, set,
  Outcome, done, fault, >>=-eq-done,
}
use udp_stuff.Lock.Threads.{total, total-add, total-taken, total-moved}
use udp_stuff.Lock.Scope.{
  Event, lock_c, unlock_c, Guard, World, clear, Op, construct, move_construct, move_assign, destroy,
  with_guard, apply, apply_all, destroy_all, empty, move_arg,
}

abbrev pub locks : ℕ → Event → ℕ
locks m (lock_c k) = if k == m then 1 else 0
locks m (unlock_c k) = 0

abbrev pub unlocks : ℕ → Event → ℕ
unlocks m (lock_c k) = 0
unlocks m (unlock_c k) = if k == m then 1 else 0

abbrev guards_of : ℕ → Guard → ℕ
guards_of m none = 0
guards_of m (some k) = if k == m then 1 else 0

-- The locks that are not given back are those that the guards hold.
abbrev Balanced : ℕ → List Guard → List Event → Type 0
Balanced m gs log = total (locks m) log ≡ total (unlocks m) log + total (guards_of m) gs

clear_lem :
    (m : ℕ) (g : Guard) (log : List Event)
    → (total (locks m) (clear g log) ≡ total (locks m) log)
      × (total (unlocks m) (clear g log) ≡ guards_of m g + total (unlocks m) log)
unfolding clear
clear_lem m none log = (refl, omega arith)
clear_lem m (some k) log = (omega arith, refl)

with_guard_lem :
    (o : Option Guard) (v : World) (f : Guard → Outcome World)
    → with_guard o f ≡ done v
    → (g : Guard) × (o ≡ some g) × (f g ≡ done v)
with_guard_lem none v f e = cc
with_guard_lem (some g) v f e = (g, refl, e)

abbrev BalancedIn : ℕ → World → Type 0
BalancedIn m w = Balanced m w.guards w.log

abbrev world_of : World → Outcome World → World
world_of d (done w) = w
world_of d _ = d

Balanced-done : (m : ℕ) (u v : World) → done u ≡ done v → BalancedIn m u → BalancedIn m v
Balanced-done m u v e b = subst (BalancedIn m) (ap (world_of u) e) b

apply-Balanced :
    (m : ℕ) (op : Op) (w v : World) → apply w op ≡ done v → BalancedIn m w → BalancedIn m v
unfolding apply
apply-Balanced m (construct k) w v e b =
    let t = total-add (guards_of m) w.guards (some k) in Balanced-done m _ v e (omega arith)
apply-Balanced m (move_construct i) w v e b =
    let (g, there, e') = with_guard_lem _ v _ e in
    let t = total-add (guards_of m) (set w.guards i none) g in
    let s = total-taken (guards_of m) none refl w.guards i g there in
    Balanced-done m _ v e' (omega arith)
apply-Balanced m (move_assign i j) w v e b =
    let (own, here, e1) = with_guard_lem _ v _ e in
    let (other, there, e2) = with_guard_lem _ v _ e1 in
    let s = total-moved (guards_of m) none refl w.guards i j own other here there in
    let c = clear_lem m own w.log in Balanced-done m _ v e2 (omega (arith, c.0, c.1))
apply-Balanced m (destroy i) w v e b =
    let (g, there, e') = with_guard_lem _ v _ e in
    let s = total-taken (guards_of m) none refl w.guards i g there in
    let c = clear_lem m g w.log in Balanced-done m _ v e' (omega (arith, c.0, c.1))

apply_all-Balanced :
    (m : ℕ) (ops : List Op) (w v : World)
    → apply_all w ops ≡ done v
    → BalancedIn m w
    → BalancedIn m v
unfolding apply_all
apply_all-Balanced m [] w v e b = Balanced-done m w v e b
apply_all-Balanced m (op ∷ ops) w v e b =
    let (u, a, r) = >>=-eq-done (apply w op) _ e in
    apply_all-Balanced m ops u v r (apply-Balanced m op w u a b)

destroy_all_lem :
    (m : ℕ) (gs : List Guard) (log : List Event)
    → Balanced m gs log
    → total (locks m) (destroy_all gs log) ≡ total (unlocks m) (destroy_all gs log)
unfolding destroy_all
destroy_all_lem m [] log b = omega arith
destroy_all_lem m (g ∷ gs) log b =
    let c = clear_lem m g log in destroy_all_lem m gs (clear g log) (omega (arith, c.0, c.1))

-- Whatever guards of `ScopeLockMovable` are made, moved, assigned (also to themselves) and destroyed, at the end of
-- the scope every mutex has been unlocked as often as it was locked.
pub destroy_all-balanced :
    (m : ℕ) (ops : List Op) (w : World)
    → apply_all empty ops ≡ done w
    → total (locks m) (destroy_all w.guards w.log) ≡ total (unlocks m) (destroy_all w.guards w.log)
destroy_all-balanced m ops w e =
    destroy_all_lem m w.guards w.log (apply_all-Balanced m ops empty w e refl)

-- A `ScopeLockArgMovable` that was moved away faults at the end of its scope, on every mutex.
pub move_arg-faults : (m : ℕ) (log : List Event) → move_arg m log ≡ fault
unfolding move_arg
move_arg-faults m log = refl
