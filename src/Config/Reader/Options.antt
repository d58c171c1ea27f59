-- ===== src/Config/Reader/Options.antt =====
-- The reader against a list of options: what it finds in a block is the first option of the name.
use udp_stuff.Base.{
  ℕ, zero, suc, ◌+◌, ◌^◌, ◌≤◌, ◌<◌, ◌≡◌, ◌≢◌, inl, inr, refl, ap, sym, arith, ◌∙◌, Bool, true,
  false, ◌&&◌, List, [], ◌∷◌, ◌++◌, Bytes, length, length-append, drop, drop-append, drop-drop,
  get_elem?, some, append_assoc, ltb, ◌==◌, if◌then◌else◌, Outcome, done, throws, out_of_range,
  ◌>>=◌, Bool-cases,
}
use udp_stuff.Config.Parser.{le32}
use udp_stuff.Config.Reader.{
  strcmp_eq, cstr, read_len, at, next, find_round, find_from, find, is_missing, _get, get, cvt_str,
}

-- An option: its name and, perhaps empty, its value.
pub record Opt : Type 0 where
  pub name : Bytes
  pub value : Bytes

abbrev pub value_part : Bytes → Bytes
value_part [] = []
value_part (x ∷ xs) = x ∷ xs ++ 0 ∷ []

-- The bytes of an option: its length with the length's own four bytes, the name, and the value where it has one.
abbrev pub body : Opt → Bytes
body o = o.name ++ 0 ∷ value_part o.value

abbrev pub encode_opt : Opt → Bytes
encode_opt o = le32 (4 + length (body o)) ++ body o

abbrev pub encode : List Opt → Bytes
encode [] = []
encode (o ∷ os) = encode_opt o ++ encode os

abbrev pub NoZero : Bytes → Type 0
NoZero [] = Unit
NoZero (x ∷ xs) = (x ≢ 0) × NoZero xs

-- An option without a byte 0 in it, whose length fits its four bytes.
pub record IsOpt (o : Opt) : Type 0 where
  pub name_ok : NoZero o.name
  pub value_ok : NoZero o.value
  pub fits : 4 + length (body o) < 2 ^ 32

abbrev pub AllOpts : List Opt → Type 0
AllOpts [] = Unit
AllOpts (o ∷ os) = IsOpt o × AllOpts os

unfoldable pub eqb : Bytes → Bytes → Bool
eqb [] [] = true
eqb [] (y ∷ ys) = false
eqb (x ∷ xs) [] = false
eqb (x ∷ xs) (y ∷ ys) = let rest = eqb xs ys in x == y && rest

abbrev pub found_value : Bytes → Outcome Bytes
found_value [] = throws out_of_range
found_value (x ∷ xs) = done (x ∷ xs)

-- The value of the first option of the name; an empty value is none.
unfoldable pub lookup : List Opt → Bytes → Outcome Bytes
unfolding eqb
lookup [] str = throws out_of_range
lookup (o ∷ os) str =
    let rest = lookup os str in if eqb o.name str then found_value o.value else rest

strcmp_eq-name :
    (n str rest : Bytes) → NoZero n → NoZero str → strcmp_eq (n ++ 0 ∷ rest) str ≡ done (eqb n str)
unfolding strcmp_eq eqb
strcmp_eq-name [] [] rest h k = refl
strcmp_eq-name [] (y ∷ ys) rest h k = ground (arith, k)
strcmp_eq-name (x ∷ xs) [] rest h k = ground (arith, h)
strcmp_eq-name (x ∷ xs) (y ∷ ys) rest h k =
    let ih = strcmp_eq-name xs ys rest h.1 k.1 in ground (arith, ih)

cstr-value : (s rest : Bytes) → NoZero s → cstr (s ++ 0 ∷ rest) ≡ done s
unfolding cstr
cstr-value [] rest h = refl
cstr-value (x ∷ xs) rest h = let ih = cstr-value xs rest h.1 in ground (arith, ih, h)

read_len-le32 :
    (v rest : Bytes) (pos n : ℕ)
    → n < 2 ^ 32
    → drop pos v ≡ le32 n ++ rest
    → read_len v pos ≡ done (n, pos + 4)
unfolding read_len
read_len-le32 v rest pos n h e = rw e (ap (λ k. done (k, pos + 4)) (omega arith))

get_elem?-drop : (v : Bytes) (b x : ℕ) (xs : Bytes) → drop b v ≡ x ∷ xs → get_elem? v b ≡ some x
get_elem?-drop [] zero x xs e = cc
get_elem?-drop [] (suc b) x xs e = cc
get_elem?-drop (y ∷ ys) zero x xs e = cc
get_elem?-drop (y ∷ ys) (suc b) x xs e = get_elem?-drop ys b x xs e

eqb-length : (n str : Bytes) → eqb n str ≡ true → length n ≡ length str
unfolding eqb
eqb-length [] [] h = refl
eqb-length [] (y ∷ ys) h = cc
eqb-length (x ∷ xs) [] h = cc
eqb-length (x ∷ xs) (y ∷ ys) h = let ih = eqb-length xs ys in ground (arith, ih)

-- What stands behind the length of an option.
drop-body :
    (v : Bytes) (pos : ℕ) (o : Opt) (rest : Bytes)
    → drop pos v ≡ encode_opt o ++ rest
    → drop (pos + 4) v ≡ body o ++ rest
drop-body v pos o rest e = sym (drop-drop pos 4 v) ∙ ap (λ t. drop 4 t) e

-- The read of an option's value where the option is found.
abbrev value_at : Bytes → ℕ → ℕ → Outcome Bytes
value_at v b e = do
  missing ← is_missing v b e
  if missing then throws out_of_range else (cstr (drop b v) >>= cvt_str)

value_at_lem :
    (v value rest : Bytes) (b e : ℕ)
    → NoZero value
    → drop b v ≡ value_part value ++ rest
    → e ≡ b + length (value_part value)
    → value_at v b e ≡ found_value value
value_at_lem v [] rest b e ok d l = let same : (b == e) ≡ true = ground arith in rw same refl
value_at_lem v (x ∷ xs) rest b e ok d l =
    let n = length-append xs (0 ∷ []) in
    let differ : (b == e) ≡ false = ground arith in
    let head = get_elem?-drop v b x ((xs ++ 0 ∷ []) ++ rest) d in
    let full : (x == 0) ≡ false = ground (arith, ok.0) in
    let whole : cstr (drop b v) ≡ done (x ∷ xs) =
      rw (d, append_assoc xs (0 ∷ []) rest) (cstr-value (x ∷ xs) rest ok) in
    rw (differ, head, full, whole) refl

-- A round at an option.
find_round-opt :
    (v str rest : Bytes) (pos : ℕ) (o : Opt)
    → IsOpt o
    → NoZero str
    → drop pos v ≡ encode_opt o ++ rest
    → find_round v str pos
      ≡ done (
          if eqb o.name str
          then at (pos + 4 + length str + 1) (pos + (4 + length (body o)))
          else next (pos + (4 + length (body o))))
unfolding find_round
find_round-opt v str rest pos o ok k e =
    let len = read_len-le32 v (body o ++ rest) pos (4 + length (body o)) ok.fits e in
    let cmp : strcmp_eq (drop (pos + 4) v) str ≡ done (eqb o.name str) =
      rw (drop-body v pos o rest e, append_assoc o.name (0 ∷ value_part o.value) rest)
        (strcmp_eq-name o.name str (value_part o.value ++ rest) ok.name_ok k) in
    rw (len, cmp) refl

-- The place of the value of an option that is found.
drop-value :
    (v str rest : Bytes) (pos : ℕ) (o : Opt)
    → length o.name ≡ length str
    → drop (pos + 4) v ≡ body o ++ rest
    → drop (pos + 4 + length str + 1) v ≡ value_part o.value ++ rest
drop-value v str rest pos o same e =
    let behind : drop (length o.name) (body o ++ rest) ≡ 0 ∷ value_part o.value ++ rest =
      rw (append_assoc o.name (0 ∷ value_part o.value) rest) (drop-append o.name _) in
    let step = drop-drop (pos + 4) (length str) v in
    let last = drop-drop (pos + 4 + length str) 1 v in
    let there : drop (pos + 4 + length str) v ≡ 0 ∷ value_part o.value ++ rest =
      sym step ∙ ap (drop (length str)) e ∙ ap (λ n. drop n (body o ++ rest)) (sym same) ∙ behind in
    sym last ∙ ap (drop 1) there

drop-next :
    (v rest : Bytes) (pos : ℕ) (o : Opt)
    → drop pos v ≡ encode_opt o ++ rest
    → drop (pos + (4 + length (body o))) v ≡ rest
drop-next v rest pos o e =
    let n = length (body o) in
    let same : pos + (4 + n) ≡ pos + 4 + n = omega arith in
    ap (λ k. drop k v) same
    ∙ sym (drop-drop (pos + 4) n v)
    ∙ ap (drop n) (drop-body v pos o rest e)
    ∙ drop-append (body o) rest

find_from_lem :
    (fuel : ℕ) (os : List Opt) (v str : Bytes) (pos : ℕ)
    → AllOpts os
    → NoZero str
    → drop pos v ≡ encode os
    → pos + length (encode os) ≡ length v
    → length v ≤ fuel + pos
    → (b : ℕ) × (e : ℕ) × (find_from fuel v str (length v) pos ≡ done (b, e))
      × (value_at v b e ≡ lookup os str)
unfolding find_from lookup
find_from_lem zero [] v str pos ok k d l f =
    let stops : ltb pos (length v) ≡ false = ground arith in
    let same : (length v == length v) ≡ true = ground arith in
    (length v, length v, rw stops refl, rw same refl)
find_from_lem (suc fuel) [] v str pos ok k d l f =
    let stops : ltb pos (length v) ≡ false = ground arith in
    let same : (length v == length v) ≡ true = ground arith in
    (length v, length v, rw stops refl, rw same refl)
find_from_lem zero (o ∷ os) v str pos ok k d l f = absurd (omega arith)
find_from_lem (suc fuel) (o ∷ os) v str pos ok k d l f =
    let round = find_round-opt v str (encode os) pos o ok.0 k d in
    let n = length-append (body o) (encode os) in
    let goes : ltb pos (length v) ≡ true = ground arith in
    let m = length-append o.name (0 ∷ value_part o.value) in
    elim (Bool-cases (eqb o.name str)) [
      | inl h ↦
          let same = eqb-length o.name str h in
          let value = drop-value v str (encode os) pos o same (drop-body v pos o (encode os) d) in
          (
            pos + 4 + length str + 1,
            pos + (4 + length (body o)),
            rw (goes, round, h) refl,
            rw h (value_at_lem v o.value (encode os) _ _ ok.0.value_ok value (omega arith)),
          )
      | inr h ↦
          let (b, e, found, value) =
            find_from_lem fuel os v str (pos + (4 + length (body o))) ok.1 k
              (drop-next v (encode os) pos o d) (omega arith) (omega arith) in
          (b, e, rw (goes, round, h) found, rw h value)
    ]

-- On a block of options, whose names and values have no byte 0 and whose lengths fit four bytes, `get` of a
-- string gives the value of the first option with the name asked for. It throws `out_of_range` if no
-- option has the name, or the first one that has it has no value.
pub get-encode :
    (os : List Opt) (name : Bytes)
    → AllOpts os
    → NoZero name
    → get cvt_str (encode os) name ≡ lookup os name
unfolding get _get find
get-encode os name ok k =
    let (b, e, found, value) =
      find_from_lem (length (encode os)) os (encode os) name 0 ok k refl (omega arith)
        (omega arith) in
    rw found value
