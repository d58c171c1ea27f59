-- ===== src/Config/Parser/Inv.antt =====
-- The invariant of the parser: the places of the open lengths lie in the block.
use udp_stuff.Base.{
  ℕ, suc, ◌+◌, ◌-◌, ◌≤◌, ◌<◌, ◌≡◌, ◌⊎◌, inr, refl, ap, arith, List, [], ◌∷◌, ◌++◌, Bytes, length,
  length-append, length-take, length-drop, take, drop, done, u32, ℕ_discrete,
}
use udp_stuff.Config.Parser.{
  State, inside, quoted_inside, outside, ParseConfig, update_len, end_opt, space_last, start_str,
  end_str, push_char, le32,
}

-- Places of lengths, with their four bytes in a block of `n` bytes.
abbrev pub AllBelow : ℕ → List ℕ → Type 0
AllBelow n [] = Unit
AllBelow n (x ∷ xs) = (x + 4 ≤ n) × AllBelow n xs

pub AllBelow-mono : (m n : ℕ) (xs : List ℕ) → m ≤ n → AllBelow m xs → AllBelow n xs
AllBelow-mono m n [] h a = tt
AllBelow-mono m n (x ∷ xs) h a = (omega arith, AllBelow-mono m n xs h a.1)

-- Between strings: the option that is open, if it has a string, has a place for its length.
pub record OutsideInv (p : ParseConfig) : Type 0 where
  pub top : ℕ
  pub below : List ℕ
  pub stack : p.pos_stack ≡ top ∷ below
  pub few : p.nstr ≤ 2
  pub top_in : (p.nstr ≡ 0) ⊎ (top + 4 ≤ length p.out_data)
  pub below_in : AllBelow (length p.out_data) below

-- In a string, with or without quotes.
pub record InsideInv (p : ParseConfig) : Type 0 where
  pub top : ℕ
  pub below : List ℕ
  pub stack : p.pos_stack ≡ top ∷ below
  pub few : p.nstr ≤ 1
  pub top_in : top + 4 ≤ length p.out_data
  pub below_in : AllBelow (length p.out_data) below

abbrev pub InvIn : State → ParseConfig → Type 0
InvIn outside p = OutsideInv p
InvIn inside p = InsideInv p
InvIn quoted_inside p = InsideInv p

update_len_lem :
    (p : ParseConfig) (pos : ℕ)
    → pos + 4 ≤ length p.out_data
    → (o : Bytes) × (update_len p pos ≡ done (record p { out_data = o }))
      × (length o ≡ length p.out_data)
unfolding update_len
update_len_lem p pos h =
    let o = p.out_data in
    let len = u32 (length o - pos) in
    let a = length-append (take pos o) (le32 len ++ drop (pos + 4) o) in
    let b = length-take pos o in
    let c = length-drop (pos + 4) o in
    (take pos o ++ (le32 len ++ drop (pos + 4) o), ground arith, omega arith)

-- Under the invariant `end_opt` closes the option, and nothing else changes.
pub end_opt_lem :
    (p : ParseConfig)
    → OutsideInv p
    → (o : Bytes) × (end_opt p ≡ done (record p { out_data = o; nstr = 0 }))
      × (length o ≡ length p.out_data)
unfolding end_opt
end_opt_lem p v = elim (ℕ_discrete p.nstr 0) [
  | yes z ↦ (p.out_data, ground arith, refl)
  | no pos ↦
      let few = v.few in
      let top_in : v.top + 4 ≤ length p.out_data = ground (arith, v.top_in) in
      let (o, e, l) = update_len_lem p v.top top_in in (o, ground (arith, e, v.stack), l)
]

space_last_lem :
    (x : ℕ) (xs : Bytes)
    → (o : Bytes) × (space_last (x ∷ xs) ≡ done o) × (length o ≡ suc (length xs))
space_last_lem x [] = (b' ' ∷ [], refl, refl)
space_last_lem x (y ∷ ys) = let (o, e, l) = space_last_lem y ys in (x ∷ o, rw e, ap suc l)

space_last_any :
    (xs : Bytes) → 0 < length xs → (o : Bytes) × (space_last xs ≡ done o) × (length o ≡ length xs)
space_last_any [] h = absurd (omega arith)
space_last_any (x ∷ xs) h = space_last_lem x xs

-- `start_str` leaves the parser ready for a string; the caller sets the state.
pub start_str_lem :
    (p : ParseConfig) → OutsideInv p → (q : ParseConfig) × (start_str p ≡ done q) × InsideInv q
unfolding start_str
start_str_lem p v = elim (ℕ_discrete p.nstr 0) [
  | yes z ↦
      let zeros : Bytes = 0 ∷ 0 ∷ 0 ∷ 0 ∷ [] in
      let longer = length-append p.out_data zeros in
      (
        record p { out_data = p.out_data ++ zeros; pos_stack = length p.out_data ∷ v.below },
        ground (arith, v.stack),
        record {
          top = length p.out_data;
          below = v.below;
          stack = refl;
          few = omega arith;
          top_in = omega arith;
          below_in = AllBelow-mono _ _ v.below (omega arith) v.below_in;
        },
      )
  | no pos ↦
      let few = v.few in
      let top_in : v.top + 4 ≤ length p.out_data = ground (arith, v.top_in) in
      let (o, e, l) = space_last_any p.out_data (omega arith) in
      elim (ℕ_discrete p.nstr 2) [
        | yes two ↦ (
          record p { nstr = 1; out_data = o },
          ground (arith, e),
          record {
            top = v.top;
            below = v.below;
            stack = v.stack;
            few = omega arith;
            top_in = omega arith;
            below_in = AllBelow-mono _ _ v.below (omega arith) v.below_in;
          },
        )
        | no one ↦ (
          p,
          ground arith,
          record {
            top = v.top;
            below = v.below;
            stack = v.stack;
            few = omega arith;
            top_in = top_in;
            below_in = v.below_in;
          },
        )
      ]
]

pub end_str-OutsideInv : (p : ParseConfig) → InsideInv p → OutsideInv (end_str p)
unfolding end_str
end_str-OutsideInv p v =
    let longer = length-append p.out_data (0 ∷ []) in
    let few = v.few in
    let top_in = v.top_in in
    record {
      top = v.top;
      below = v.below;
      stack = v.stack;
      few = omega arith;
      top_in = inr (omega arith);
      below_in = AllBelow-mono _ _ v.below (omega arith) v.below_in;
    }

pub push_char-InsideInv : (p : ParseConfig) (c : ℕ) → InsideInv p → InsideInv (push_char p c)
push_char-InsideInv p c v =
    let longer = length-append p.out_data (c ∷ []) in
    let few = v.few in
    let top_in = v.top_in in
    record {
      top = v.top;
      below = v.below;
      stack = v.stack;
      few = few;
      top_in = omega arith;
      below_in = AllBelow-mono _ _ v.below (omega arith) v.below_in;
    }
