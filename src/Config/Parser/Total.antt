-- ===== src/Config/Parser/Total.antt =====
-- The parser ends on every text, with a block or an error, and never reads or writes outside it.
use udp_stuff.Base.{
  ℕ, ◌+◌, ◌≤◌, ◌≡◌, ◌⊎◌, inl, inr, refl, sym, subst, arith, true, false, ◌||◌, List, [], ◌∷◌, ◌++◌,
  Bytes, length, length-append, ◌==◌, Outcome, done, throws, fault, hangs, Exception, parse_error,
  ◌>>=◌, ℕ_discrete, Bool-cases,
}
use udp_stuff.Config.Parser.{
  State, inside, quoted_inside, outside, ParseConfig, end_opt, start_str, end_str, push_char, Read,
  next, again, open_brace, close_brace, step_outside, step_inside, step_quoted, ends_word, no_pos,
}
use udp_stuff.Config.Parser.Inv.{
  AllBelow, AllBelow-mono, OutsideInv, InsideInv, InvIn, end_opt_lem, start_str_lem,
  end_str-OutsideInv, push_char-InsideInv,
}

abbrev pub IsParseError : Exception → Type 0
IsParseError e = (n : ℕ) × (e ≡ parse_error n)

-- A character that is put back will be read for good at the next round.
abbrev pub CalmIn : State → ℕ → Type 0
CalmIn inside c = ends_word c ≡ false
CalmIn outside c = ends_word c ≡ true
CalmIn quoted_inside c = ⊥

abbrev pub Good : ℕ → Outcome Read → Type 0
Good c (done (next q)) = InvIn q.state q
Good c (done (again q)) = InvIn q.state q × CalmIn q.state c
Good c (throws e) = IsParseError e
Good c fault = ⊥
Good c hangs = ⊥

InvIn-outside : (q : ParseConfig) → q.state ≡ outside → OutsideInv q → InvIn q.state q
InvIn-outside q st v = subst (λ s. InvIn s q) (sym st) v

Good-next :
    (c : ℕ) (m : Outcome Read) (q : ParseConfig) → m ≡ done (next q) → InvIn q.state q → Good c m
Good-next c m q e v = subst (Good c) (sym e) v

Good-again :
    (c : ℕ) (m : Outcome Read) (q : ParseConfig)
    → m ≡ done (again q)
    → InvIn q.state q × CalmIn q.state c
    → Good c m
Good-again c m q e v = subst (Good c) (sym e) v

Good-throws : (c : ℕ) (m : Outcome Read) (n : ℕ) → m ≡ throws (parse_error n) → Good c m
Good-throws c m n e = subst (Good c) (sym e) (n, refl)

below_whole :
    (p : ParseConfig) (v : OutsideInv p) (n : ℕ)
    → v.top + 4 ≤ n
    → AllBelow n v.below
    → AllBelow n p.pos_stack
below_whole p v n h a = subst (AllBelow n) (sym v.stack) (h, a)

open_brace-Good :
    (p : ParseConfig) (c : ℕ) → p.state ≡ outside → OutsideInv p → Good c (open_brace p)
unfolding open_brace
open_brace-Good p c st v = elim (ℕ_discrete p.nstr 1) [
  | no other ↦ Good-throws c _ p.line_num (ground arith)
  | yes one ↦
      let longer = length-append p.out_data (0 ∷ []) in
      let top_in : v.top + 4 ≤ length p.out_data = ground (arith, v.top_in) in
      let q : ParseConfig = record p {
        out_data = p.out_data ++ 0 ∷ [];
        nstr = 0;
        pos_stack = no_pos ∷ p.pos_stack;
      } in
      Good-next c _ q (ground arith) (
        InvIn-outside q st (record {
          top = no_pos;
          below = p.pos_stack;
          stack = refl;
          few = omega arith;
          top_in = inl refl;
          below_in =
              below_whole p v _ (omega arith) (AllBelow-mono _ _ v.below (omega arith) v.below_in);
        }))
]

-- After the end of an option at the top of the stack.
ended-OutsideInv :
    (p : ParseConfig) (o : Bytes)
    → OutsideInv p
    → length o ≡ length p.out_data
    → OutsideInv (record p { out_data = o; nstr = 0 })
ended-OutsideInv p o v l = record {
  top = v.top;
  below = v.below;
  stack = v.stack;
  few = omega arith;
  top_in = inl refl;
  below_in = AllBelow-mono _ _ v.below (omega arith) v.below_in;
}

end_opt-Good :
    (p : ParseConfig) (c : ℕ)
    → p.state ≡ outside
    → OutsideInv p
    → Good c (end_opt p >>= λ q. done (next q))
end_opt-Good p c st v =
    let (o, e, l) = end_opt_lem p v in
    let q : ParseConfig = record p { out_data = o; nstr = 0 } in
    Good-next c _ q (rw e) (InvIn-outside q st (ended-OutsideInv p o v l))

-- The parser at the level above, which a `}` closes with two strings.
closing-OutsideInv :
    (p : ParseConfig) (o : Bytes) (y : ℕ) (ys : List ℕ) (v : OutsideInv p)
    → length o ≡ length p.out_data
    → v.below ≡ y ∷ ys
    → OutsideInv (record p { out_data = o; pos_stack = y ∷ ys; nstr = 2 })
closing-OutsideInv p o y ys v l e =
    let all : AllBelow (length p.out_data) (y ∷ ys) =
      subst (AllBelow (length p.out_data)) e v.below_in in
    record {
      top = y;
      below = ys;
      stack = refl;
      few = omega arith;
      top_in = inr (omega (arith, all.0));
      below_in = AllBelow-mono _ _ ys (omega arith) all.1;
    }

List-cases : (xs : List ℕ) → (xs ≡ []) ⊎ ((y : ℕ) × (ys : List ℕ) × (xs ≡ y ∷ ys))
List-cases [] = inl refl
List-cases (y ∷ ys) = inr (y, ys, refl)

close_brace-Good :
    (p : ParseConfig) (c : ℕ) → p.state ≡ outside → OutsideInv p → Good c (close_brace p)
unfolding close_brace
close_brace-Good p c st v =
    let (o, e, l) = end_opt_lem p v in
    elim (List-cases v.below) [
      | inl none ↦ Good-throws c _ p.line_num (ground (arith, e, v.stack))
      | inr (y, ys, more) ↦
          let inner : ParseConfig = record p { out_data = o; pos_stack = y ∷ ys; nstr = 2 } in
          let w = closing-OutsideInv p o y ys v l more in
          let (o', e', l') = end_opt_lem inner w in
          let q : ParseConfig = record inner { out_data = o'; nstr = 0 } in
          Good-next c _ q (ground (arith, e, e', v.stack))
            (InvIn-outside q st (ended-OutsideInv inner o' w l'))
    ]

quoted-Good :
    (p : ParseConfig) (c : ℕ)
    → OutsideInv p
    → Good c (start_str p >>= λ q. done (next (record q { state = quoted_inside })))
quoted-Good p c v =
    let (q, e, w) = start_str_lem p v in
    Good-next c _ (record q { state = quoted_inside }) (rw e)
      (record {
        top = w.top;
        below = w.below;
        stack = w.stack;
        few = w.few;
        top_in = w.top_in;
        below_in = w.below_in;
      })

word-Good :
    (p : ParseConfig) (c : ℕ)
    → OutsideInv p
    → ends_word c ≡ false
    → Good c (start_str p >>= λ q. done (again (record q { state = inside })))
word-Good p c v calm =
    let (q, e, w) = start_str_lem p v in
    Good-again c _ (record q { state = inside }) (rw e)
      (
        record {
          top = w.top;
          below = w.below;
          stack = w.stack;
          few = w.few;
          top_in = w.top_in;
          below_in = w.below_in;
        },
        calm,
      )

pub step_outside-Good :
    (p : ParseConfig) (c : ℕ) → p.state ≡ outside → OutsideInv p → Good c (step_outside p c)
unfolding step_outside
step_outside-Good p c st v = elim (Bool-cases (c == b'{')) [
  | inl e ↦ rw e (open_brace-Good p c st v)
  | inr a ↦ elim (Bool-cases (c == b'}')) [
    | inl e ↦ rw (a, e) (close_brace-Good p c st v)
    | inr b ↦ elim (Bool-cases (c == b';' || c == b'\n')) [
      | inl e ↦ rw (a, b, e) (end_opt-Good p c st v)
      | inr d ↦ elim (Bool-cases (c == b'\t' || c == b' ' || c == b':')) [
        | inl e ↦ rw (a, b, d, e) (InvIn-outside p st v)
        | inr f ↦ elim (Bool-cases (c == b'"')) [
          | inl e ↦ rw (a, b, d, f, e) (quoted-Good p c v)
          | inr g ↦ rw (a, b, d, f, g) (word-Good p c v (ground arith))
        ]
      ]
    ]
  ]
]

pub step_inside-Good :
    (p : ParseConfig) (c : ℕ) → p.state ≡ inside → InsideInv p → Good c (step_inside p c)
unfolding step_inside end_str
step_inside-Good p c st v = elim (Bool-cases (ends_word c)) [
  | inl e ↦ rw e (end_str-OutsideInv p v, e)
  | inr a ↦ elim (Bool-cases (c == b'\t' || c == b' ')) [
    | inl e ↦ rw (a, e) (end_str-OutsideInv p v)
    | inr b ↦ rw (a, b) (subst (λ s. InvIn s (push_char p c)) (sym st) (push_char-InsideInv p c v))
  ]
]

pub step_quoted-Good :
    (p : ParseConfig) (c : ℕ) → p.state ≡ quoted_inside → InsideInv p → Good c (step_quoted p c)
unfolding step_quoted end_str
step_quoted-Good p c st v = elim (Bool-cases (c == b'"')) [
  | inl e ↦ rw e (end_str-OutsideInv p v)
  | inr a ↦ rw a (subst (λ s. InvIn s (push_char p c)) (sym st) (push_char-InsideInv p c v))
]
