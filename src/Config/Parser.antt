-- ===== src/Config/Parser.antt =====
-- config.h, `ImmutableConfig::ParseConfig`: a machine over the characters of the text.
pub mod Inv
pub mod Total
pub mod Ends
use udp_stuff.Base.{
  ℕ, zero, suc, ◌+◌, ◌-◌, ◌*◌, ◌/◌, ◌%◌, ◌^◌, Bool, true, false, not, ◌&&◌, ◌||◌, List, [], ◌∷◌,
  ◌++◌, Bytes, length, take, drop, ltb, leb, ◌==◌, if◌then◌else◌, Outcome, done, throws, fault,
  hangs, parse_error, ◌>>=◌, u32,
}

pub data State : Type 0 where
  inside quoted_inside outside : State

pub record ParseConfig : Type 0 where
  pub out_data : Bytes
  pub pos_stack : List ℕ  -- the back of the vector comes first
  pub nstr : ℕ
  pub line_num : ℕ
  pub state : State

abbrev pub throw_error {ℓ} : {A : Type ℓ} → ParseConfig → Outcome A
throw_error p = throws (parse_error p.line_num)

abbrev pub le32 : ℕ → Bytes
le32 n = n % 2 ^ 8 ∷ n / 2 ^ 8 % 2 ^ 8 ∷ n / 2 ^ 16 % 2 ^ 8 ∷ n / 2 ^ 24 % 2 ^ 8 ∷ []

abbrev pub push_char : ParseConfig → ℕ → ParseConfig
push_char p c = record p { out_data = p.out_data ++ c ∷ [] }

-- `pos_stack.back() = v`; the back of an empty vector is undefined.
abbrev pub set_back : List ℕ → ℕ → Outcome (List ℕ)
set_back [] v = fault
set_back (x ∷ xs) v = done (v ∷ xs)

abbrev pub back : List ℕ → Outcome ℕ
back [] = fault
back (x ∷ xs) = done x

-- Four bytes of zeros at the end, and their place.
unfoldable pub reserve_len : ParseConfig → ℕ × ParseConfig
reserve_len p = (length p.out_data, record p { out_data = p.out_data ++ 0 ∷ 0 ∷ 0 ∷ 0 ∷ [] })

unfoldable pub update_len : ParseConfig → ℕ → Outcome ParseConfig
update_len p len_pos =
    let len = u32 (length p.out_data - len_pos) in
    if leb (len_pos + 4) (length p.out_data)
    then done (record p {
      out_data = take len_pos p.out_data ++ (le32 len ++ drop (len_pos + 4) p.out_data);
    })
    else fault

unfoldable pub end_opt : ParseConfig → Outcome ParseConfig
unfolding update_len
end_opt p =
    if p.nstr == 0
    then done p
    else if p.nstr == 1 || p.nstr == 2
    then (do b ← back p.pos_stack; q ← update_len p b; done (record q { nstr = 0 }))
    else throw_error p

-- The last byte becomes a space.
abbrev pub space_last : Bytes → Outcome Bytes
space_last [] = fault
space_last (x ∷ []) = done (b' ' ∷ [])
space_last (x ∷ y ∷ ys) = space_last (y ∷ ys) >>= λ zs. done (x ∷ zs)

abbrev pub first_str : ParseConfig → Outcome ParseConfig
first_str p =
    if p.nstr == 0
    then (let (pos, q) = reserve_len p in
        set_back q.pos_stack pos >>= λ s. done (record q { pos_stack = s }))
    else done p

unfoldable pub start_str : ParseConfig → Outcome ParseConfig
unfolding reserve_len
start_str p = do
  q ← first_str p
  if q.nstr == 2
      then (do o ← space_last q.out_data; done (record q { nstr = 1; out_data = o }))
      else done q

unfoldable pub end_str : ParseConfig → ParseConfig
end_str p = record p { out_data = p.out_data ++ 0 ∷ []; state = outside; nstr = p.nstr + 1 }

-- A character is done with, or `data--` puts it back.
pub data Read : Type 0 where
  next : ParseConfig → Read
  again : ParseConfig → Read

-- `pos_stack.push_back(-1)`
abbrev pub no_pos : ℕ
no_pos = 2 ^ 64 - 1

unfoldable pub open_brace : ParseConfig → Outcome Read
open_brace p =
    if not (p.nstr == 1)
    then throw_error p
    else done (
        next (record p {
          out_data = p.out_data ++ 0 ∷ [];
          nstr = 0;
          pos_stack = no_pos ∷ p.pos_stack;
        }))

unfoldable pub close_brace : ParseConfig → Outcome Read
unfolding end_opt
close_brace p = do
  q ← end_opt p
  if leb (length q.pos_stack) 1
      then throw_error q
      else (do r ← end_opt (record q { pos_stack = drop 1 q.pos_stack; nstr = 2 }); done (next r))

unfoldable pub step_outside : ParseConfig → ℕ → Outcome Read
unfolding open_brace close_brace end_opt start_str
step_outside p c =
    if c == b'{'
    then open_brace p
    else if c == b'}'
    then close_brace p
    else if c == b';' || c == b'\n'
    then (end_opt p >>= λ q. done (next q))
    else if c == b'\t' || c == b' ' || c == b':'
    then done (next p)
    else if c == b'"'
    then (start_str p >>= λ q. done (next (record q { state = quoted_inside })))
    else (start_str p >>= λ q. done (again (record q { state = inside })))

-- The bytes that end a word and are read once more.
abbrev pub ends_word : ℕ → Bool
ends_word c = c == b'{' || c == b'}' || c == b';' || c == b'\n' || c == b'"'

unfoldable pub step_inside : ParseConfig → ℕ → Outcome Read
unfolding end_str
step_inside p c =
    if ends_word c
    then done (again (end_str p))
    else if c == b'\t' || c == b' '
    then done (next (end_str p))
    else done (next (push_char p c))

unfoldable pub step_quoted : ParseConfig → ℕ → Outcome Read
unfolding end_str
step_quoted p c = if c == b'"' then done (next (end_str p)) else done (next (push_char p c))

abbrev pub step_in : State → ParseConfig → ℕ → Outcome Read
step_in outside p c = step_outside p c
step_in inside p c = step_inside p c
step_in quoted_inside p c = step_quoted p c

abbrev pub is_inside : State → Bool
is_inside inside = true
is_inside _ = false

abbrev pub count_line : ParseConfig → ℕ → ParseConfig
count_line p c =
    if c == b'\n' && not (is_inside p.state) then record p { line_num = p.line_num + 1 } else p

-- A round of the `while`.
unfoldable pub step : ParseConfig → ℕ → Outcome Read
unfolding step_outside step_inside step_quoted
step p c = let q = count_line p c in step_in q.state q c

abbrev pub settle : Read → Outcome ParseConfig
settle (next r) = done r
settle (again r) = hangs

unfoldable pub read_again : ℕ → Read → Outcome ParseConfig
unfolding step
read_again c (next q) = done q
read_again c (again q) = step q c >>= settle

-- The rounds that one character takes; a character put back twice would be put back for ever.
unfoldable pub feed : ParseConfig → ℕ → Outcome ParseConfig
unfolding step read_again
feed p c = step p c >>= read_again c

-- The text ends at its first 0, or at the end of the list.
unfoldable pub run : ParseConfig → Bytes → Outcome ParseConfig
unfolding feed
run p [] = done p
run p (c ∷ cs) = if c == 0 then done p else (feed p c >>= λ q. run q cs)

abbrev pub initial : ParseConfig
initial = record { out_data = []; pos_stack = no_pos ∷ []; nstr = 0; line_num = 0; state = outside }

abbrev pub is_outside : State → Bool
is_outside outside = true
is_outside _ = false

unfoldable pub finish : ParseConfig → Outcome Bytes
unfolding end_str end_opt
finish p = do
  q ← end_opt (if is_outside p.state then p else end_str p)
  if ltb 1 (length q.pos_stack) then throw_error q else done q.out_data

-- The constructor of `ParseConfig`, on an empty vector.
unfoldable pub parse : Bytes → Outcome Bytes
unfolding run finish
parse str = run initial str >>= finish
