-- ===== src/Config/Parser/Ends.antt =====
-- `config.h`, the loop of the constructor of `ParseConfig`: where it ends.
use udp_stuff.Base.{
  ℕ, ◌+◌, ◌≡◌, ◌⊎◌, inl, inr, refl, ap, sym, subst, arith, true, false, not, ◌&&◌, ◌||◌, [], ◌∷◌,
  Bytes, length, drop, ltb, leb, ◌==◌, if◌then◌else◌, Outcome, done, throws, fault, hangs,
  parse_error, ◌>>=◌, Bool-cases,
}
use udp_stuff.Config.Parser.{
  State, inside, quoted_inside, outside, ParseConfig, end_opt, start_str, end_str, Read, next,
  again, settle, read_again, open_brace, close_brace, step_outside, step_inside, ends_word, step_in,
  step, feed, run, initial, finish, parse, count_line, is_outside, no_pos, is_inside,
}
use udp_stuff.Config.Parser.Inv.{OutsideInv, InvIn, end_opt_lem, end_str-OutsideInv}
use udp_stuff.Config.Parser.Total.{
  IsParseError, CalmIn, Good, step_outside-Good, step_inside-Good, step_quoted-Good,
}

-- The number of the line plays no part in the invariant.
InvIn-line_num :
    (s : State) (p : ParseConfig) (n : ℕ) → InvIn s p → InvIn s (record p { line_num = n })
InvIn-line_num outside p n v = record {
  top = v.top;
  below = v.below;
  stack = v.stack;
  few = v.few;
  top_in = v.top_in;
  below_in = v.below_in;
}
InvIn-line_num inside p n v = record {
  top = v.top;
  below = v.below;
  stack = v.stack;
  few = v.few;
  top_in = v.top_in;
  below_in = v.below_in;
}
InvIn-line_num quoted_inside p n v = record {
  top = v.top;
  below = v.below;
  stack = v.stack;
  few = v.few;
  top_in = v.top_in;
  below_in = v.below_in;
}

count_line-InvIn :
    (p : ParseConfig) (c : ℕ) → InvIn p.state p → InvIn (count_line p c).state (count_line p c)
count_line-InvIn p c v = elim (Bool-cases (c == b'\n' && not (is_inside p.state))) [
  | inl e ↦ rw e (InvIn-line_num p.state p (p.line_num + 1) v)
  | inr e ↦ rw e v
]

step_in-Good :
    (s : State) (q : ParseConfig) (c : ℕ) → q.state ≡ s → InvIn s q → Good c (step_in s q c)
step_in-Good outside q c e v = step_outside-Good q c e v
step_in-Good inside q c e v = step_inside-Good q c e v
step_in-Good quoted_inside q c e v = step_quoted-Good q c e v

step-Good : (p : ParseConfig) (c : ℕ) → InvIn p.state p → Good c (step p c)
unfolding step
step-Good p c v =
    step_in-Good (count_line p c).state (count_line p c) c refl (count_line-InvIn p c v)

-- A round that does not put its character back.
abbrev Reads : Outcome Read → Type 0
Reads (done (again q)) = ⊥
Reads _ = Unit

Reads-next :
    {A : Type 0} (m : Outcome A) (f : A → ParseConfig) → Reads (m >>= λ a. done (next (f a)))
Reads-next (done a) f = tt
Reads-next (throws e) f = tt
Reads-next fault f = tt
Reads-next hangs f = tt

Reads-bind :
    {A : Type 0} (m : Outcome A) (f : A → Outcome Read) → ((a : A) → Reads (f a)) → Reads (m >>= f)
Reads-bind (done a) f h = h a
Reads-bind (throws e) f h = tt
Reads-bind fault f h = tt
Reads-bind hangs f h = tt

open_brace-Reads : (p : ParseConfig) → Reads (open_brace p)
unfolding open_brace
open_brace-Reads p = elim (Bool-cases (not (p.nstr == 1))) [ inl e ↦ rw e tt | inr e ↦ rw e tt ]

close_brace-Reads : (p : ParseConfig) → Reads (close_brace p)
unfolding close_brace
close_brace-Reads p = Reads-bind (end_opt p) _ λ q. elim (Bool-cases (leb (length q.pos_stack) 1)) [
  | inl e ↦ rw e tt
  | inr e ↦
      rw e (Reads-next (end_opt (record q { pos_stack = drop 1 q.pos_stack; nstr = 2 })) λ r. r)
]

step_outside-Reads : (p : ParseConfig) (c : ℕ) → ends_word c ≡ true → Reads (step_outside p c)
unfolding step_outside
step_outside-Reads p c h = elim (Bool-cases (c == b'{')) [
  | inl e ↦ rw e (open_brace-Reads p)
  | inr a ↦ elim (Bool-cases (c == b'}')) [
    | inl e ↦ rw (a, e) (close_brace-Reads p)
    | inr b ↦ elim (Bool-cases (c == b';' || c == b'\n')) [
      | inl e ↦ rw (a, b, e) (Reads-next (end_opt p) λ q. q)
      | inr d ↦ elim (Bool-cases (c == b'\t' || c == b' ' || c == b':')) [
        | inl e ↦ rw (a, b, d, e) tt
        | inr f ↦
            let quoted : (c == b'"') ≡ true = ground arith in
            rw (a, b, d, f, quoted)
              (Reads-next (start_str p) λ q. record q { state = quoted_inside })
      ]
    ]
  ]
]

step_inside-Reads : (p : ParseConfig) (c : ℕ) → ends_word c ≡ false → Reads (step_inside p c)
unfolding step_inside
step_inside-Reads p c h = elim (Bool-cases (c == b'\t' || c == b' ')) [
  | inl e ↦ rw (h, e) tt
  | inr e ↦ rw (h, e) tt
]

step_in-Reads : (s : State) (q : ParseConfig) (c : ℕ) → CalmIn s c → Reads (step_in s q c)
step_in-Reads outside q c h = step_outside-Reads q c h
step_in-Reads inside q c h = step_inside-Reads q c h
step_in-Reads quoted_inside q c h = elim h [ ]

-- A value with a property, or an error of the parser.
abbrev Sound : {A : Type 0} → (A → Type 0) → Outcome A → Type 0
Sound P (done q) = P q
Sound P (throws e) = IsParseError e
Sound P fault = ⊥
Sound P hangs = ⊥

abbrev Valid : ParseConfig → Type 0
Valid q = InvIn q.state q

Sound-bind :
    {A B : Type 0} (P : A → Type 0) (Q : B → Type 0) (m : Outcome A) (f : A → Outcome B)
    → Sound P m
    → ((a : A) → P a → Sound Q (f a))
    → Sound Q (m >>= f)
Sound-bind P Q (done a) f s h = h a s
Sound-bind P Q (throws e) f s h = s
Sound-bind P Q fault f s h = s
Sound-bind P Q hangs f s h = s

settle-Sound : (c : ℕ) (m : Outcome Read) → Good c m → Reads m → Sound Valid (m >>= settle)
settle-Sound c (done (next q)) g r = g
settle-Sound c (done (again q)) g r = elim r [ ]
settle-Sound c (throws e) g r = g
settle-Sound c fault g r = g
settle-Sound c hangs g r = g

step-Reads : (q : ParseConfig) (c : ℕ) → CalmIn q.state c → Reads (step q c)
unfolding step
step-Reads q c h =
    step_in-Reads (count_line q c).state (count_line q c) c
      (elim (Bool-cases (c == b'\n' && not (is_inside q.state))) [
        | inl e ↦ rw e h
        | inr e ↦ rw e h
      ])

read_again-Sound : (c : ℕ) (m : Outcome Read) → Good c m → Sound Valid (m >>= read_again c)
unfolding read_again
read_again-Sound c (done (next q)) g = g
read_again-Sound c (done (again q)) g =
    settle-Sound c (step q c) (step-Good q c g.0) (step-Reads q c g.1)
read_again-Sound c (throws e) g = g
read_again-Sound c fault g = g
read_again-Sound c hangs g = g

feed-Sound : (p : ParseConfig) (c : ℕ) → Valid p → Sound Valid (feed p c)
unfolding feed
feed-Sound p c v = read_again-Sound c (step p c) (step-Good p c v)

run-Sound : (p : ParseConfig) (text : Bytes) → Valid p → Sound Valid (run p text)
unfolding run
run-Sound p [] v = v
run-Sound p (c ∷ cs) v = elim (Bool-cases (c == 0)) [
  | inl e ↦ rw e v
  | inr e ↦
      rw e (
        Sound-bind Valid Valid (feed p c) (λ q. run q cs) (feed-Sound p c v)
          λ q w. run-Sound q cs w)
]

initial-Valid : Valid initial
initial-Valid = record {
  top = no_pos;
  below = [];
  stack = refl;
  few = omega arith;
  top_in = inl refl;
  below_in = tt;
}

-- What is left open at the end is a word, which the end closes.
closed-OutsideInv :
    (s : State) (p : ParseConfig) → InvIn s p → OutsideInv (if is_outside s then p else end_str p)
closed-OutsideInv outside p v = v
closed-OutsideInv inside p v = end_str-OutsideInv p v
closed-OutsideInv quoted_inside p v = end_str-OutsideInv p v

finish-Sound : (p : ParseConfig) → Valid p → Sound (λ _. Unit) (finish p)
unfolding finish
finish-Sound p v =
    let q : ParseConfig = if is_outside p.state then p else end_str p in
    let (o, e, l) = end_opt_lem q (closed-OutsideInv p.state p v) in
    Sound-bind (λ _. Unit {0}) (λ _. Unit) (end_opt q) _ (subst (Sound (λ _. Unit)) (sym e) tt)
      λ r _. elim (Bool-cases (ltb 1 (length r.pos_stack))) [
        | inl h ↦ rw h (r.line_num, refl)
        | inr h ↦ rw h tt
      ]

Sound-cases :
    {A : Type 0} (P : A → Type 0) (m : Outcome A)
    → Sound P m
    → ((v : A) × (m ≡ done v)) ⊎ ((n : ℕ) × (m ≡ throws (parse_error n)))
Sound-cases P (done a) s = inl (a, refl)
Sound-cases P (throws e) s = inr (s.0, ap throws s.1)
Sound-cases P fault s = elim s [ ]
Sound-cases P hangs s = elim s [ ]

-- The constructor of `ParseConfig` ends on every text, whatever its bytes are: it leaves a block, or
-- throws a `ParseError`. No other exception leaves it, no access goes outside the block or an empty
-- stack, and no character is put back for ever.
pub parse_total :
    (str : Bytes)
    → ((v : Bytes) × (parse str ≡ done v)) ⊎ ((n : ℕ) × (parse str ≡ throws (parse_error n)))
unfolding parse
parse_total str =
    Sound-cases (λ _. Unit) (parse str)
      (Sound-bind Valid (λ _. Unit) (run initial str) finish (run-Sound initial str initial-Valid)
        λ p v. finish-Sound p v)
