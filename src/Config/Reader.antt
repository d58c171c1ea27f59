-- ===== src/Config/Reader.antt =====
-- config.h, `ImmutableConfig`: reading the block that the parser wrote.
pub mod Options
use udp_stuff.Base.{
  ℕ, zero, suc, ◌+◌, ◌-◌, ◌*◌, ◌/◌, ◌%◌, ◌^◌, Bool, true, false, not, ◌&&◌, ◌||◌, List, [], ◌∷◌,
  ◌++◌, Bytes, length, take, drop, get_elem?, Option, none, some, ltb, leb, ◌==◌, if◌then◌else◌,
  Outcome, done, throws, fault, hangs, out_of_range, parse_error, ◌>>=◌, u32,
}
use udp_stuff.Config.Parser.{parse}

-- `!strcmp(a, str)`, where `a` stands in a block and `str` is the bytes before its 0: a comparison that
-- comes to the end of the block reads outside it.
unfoldable pub strcmp_eq : Bytes → Bytes → Outcome Bool
strcmp_eq [] str = fault
strcmp_eq (x ∷ xs) [] = done (x == 0)
strcmp_eq (x ∷ xs) (y ∷ ys) = let rest = strcmp_eq xs ys in if x == y then rest else done false

-- The bytes before the first 0.
unfoldable pub cstr : Bytes → Outcome Bytes
cstr [] = fault
cstr (x ∷ xs) = let rest = cstr xs in if x == 0 then done [] else rest >>= λ s. done (x ∷ s)

abbrev read_le32 : Bytes → Outcome ℕ
read_le32 (a ∷ b ∷ c ∷ d ∷ xs) = done (a + b * 2 ^ 8 + c * 2 ^ 16 + d * 2 ^ 24)
read_le32 _ = fault

-- The length at `pos`, and the position behind it.
unfoldable pub read_len : Bytes → ℕ → Outcome (ℕ × ℕ)
read_len v pos = read_le32 (drop pos v) >>= λ r. done (r, pos + 4)

-- A round of the loop: the answer, or the next position.
pub data Found : Type 0 where
  at : ℕ → ℕ → Found
  next : ℕ → Found

unfoldable pub find_round : Bytes → Bytes → ℕ → Outcome Found
unfolding strcmp_eq read_len
find_round v str start = do
  (r, pos) ← read_len v start
  let new_pos = start + r
  same ← strcmp_eq (drop pos v) str
  done (if same then at (pos + length str + 1) new_pos else next new_pos)

-- A length of 0 takes the loop back to the same place for ever. Every other round goes on by a byte at least,
-- so `pos_e` rounds are enough.
unfoldable pub find_from : ℕ → Bytes → Bytes → ℕ → ℕ → Outcome (ℕ × ℕ)
unfolding find_round
find_from zero v str pos_e pos = if ltb pos pos_e then hangs else done (pos_e, pos_e)
find_from (suc fuel) v str pos_e pos =
    let later = find_from fuel v str pos_e in
    if ltb pos pos_e
    then (find_round v str pos >>= elim [ at b e ↦ done (b, e) | next p ↦ later p ])
    else done (pos_e, pos_e)

unfoldable pub find : Bytes → Bytes → ℕ → ℕ → Outcome (ℕ × ℕ)
unfolding find_from
find v str fb fe = find_from fe v str fe fb

-- `b == e || !v[b]`
abbrev pub is_missing : Bytes → ℕ → ℕ → Outcome Bool
is_missing v b e =
    if b == e then done true else elim (get_elem? v b) [ none ↦ fault | some x ↦ done (x == 0) ]

-- `_get` without a default, for each conversion of a string.
unfoldable pub _get {ℓ} : {A : Type ℓ} → (Bytes → Outcome A) → Bytes → Bytes → ℕ → ℕ → Outcome A
unfolding find cstr
_get cvt_val v name fb fe = do
  (b, e) ← find v name fb fe
  missing ← is_missing v b e
  if missing then throws out_of_range else (cstr (drop b v) >>= cvt_val)

-- `_get` with one.
unfoldable pub _get_or {ℓ} :
    {A : Type ℓ} → (Bytes → Outcome A) → Bytes → Bytes → A → ℕ → ℕ → Outcome A
unfolding find cstr
_get_or cvt_val v name default_ fb fe = do
  (b, e) ← find v name fb fe
  missing ← is_missing v b e
  if missing then done default_ else (cstr (drop b v) >>= cvt_val)

unfoldable pub get {ℓ} : {A : Type ℓ} → (Bytes → Outcome A) → Bytes → Bytes → Outcome A
unfolding _get
get cvt_val v name = _get cvt_val v name 0 (length v)

unfoldable pub get_or {ℓ} : {A : Type ℓ} → (Bytes → Outcome A) → Bytes → Bytes → A → Outcome A
unfolding _get_or
get_or cvt_val v name default_ = _get_or cvt_val v name default_ 0 (length v)

-- `cvt_val<const char *>`
abbrev pub cvt_str : Bytes → Outcome Bytes
cvt_str str = done str

abbrev starts : Bytes → Bytes → Bool
starts [] str = true
starts (x ∷ xs) [] = false
starts (x ∷ xs) (y ∷ ys) = let rest = starts xs ys in x == y && rest

-- `str2ipv4` and `cvt_val<uint32_t>`, over `inet_pton` and `strtoul` of the C library. The error's line is not
-- a number that the parser counted: its text alone is written, and 0 stands for it.
module _ (inet_pton : Bytes → Option ℕ) (strtoul : Bytes → ℕ → ℕ) where
  unfoldable pub str2ipv4 : Bytes → Outcome ℕ
  str2ipv4 str = elim (inet_pton str) [ none ↦ throws (parse_error 0) | some r ↦ done r ]

  unfoldable pub cvt_u32 : Bytes → Outcome ℕ
  unfolding str2ipv4
  cvt_u32 str =
      if starts (b'0' ∷ b'x' ∷ []) str
      then done (u32 (strtoul (drop 2 str) 16))
      else if starts (b'i' ∷ b'p' ∷ b'v' ∷ b'4' ∷ b':' ∷ []) str
      then str2ipv4 (drop 5 str)
      else done (u32 (strtoul str 10))
