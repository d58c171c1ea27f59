-- ===== src/Base/Memory.antt =====
-- `memcpy` on bytes of a buffer, and what the buffer holds then.
use Prim.Native.Nat.{ℕ, ◌+◌, ◌≤◌, ◌<◌}
use mathlib.Core.Path.{◌≡◌, refl, ap, sym, ◌∙◌}
use mathlib.Core.Bool.{true, false}
use mathlib.Core.List.{◌++◌, append_assoc}
use native.Mathlib.Omega.{arith}
use udp_stuff.Base.Tests.{leb, if◌then◌else◌}
use udp_stuff.Base.Fallible.{Outcome, done, fault}
use udp_stuff.Base.Lists.{
  Bytes, length, take, drop, length-append, length-take, length-drop, take-append, drop-append,
  drop-drop, take-append-drop,
}

-- `memcpy` of `n` bytes at `offset` out of a buffer, and into it
abbrev pub copy_out : Bytes → ℕ → ℕ → Outcome Bytes
copy_out buf offset n =
    if leb (offset + n) (length buf) then done (take n (drop offset buf)) else fault

abbrev pub copy_in : Bytes → ℕ → Bytes → Outcome Bytes
copy_in buf offset bytes =
    if leb (offset + length bytes) (length buf)
    then done (take offset buf ++ (bytes ++ drop (offset + length bytes) buf))
    else fault

abbrev pub splice : Bytes → ℕ → Bytes → Bytes
splice buf i bytes = take i buf ++ (bytes ++ drop (i + length bytes) buf)

pub copy_in-inside :
    (buf : Bytes) (i : ℕ) (bytes : Bytes)
    → i + length bytes ≤ length buf
    → copy_in buf i bytes ≡ done (splice buf i bytes)
copy_in-inside buf i bytes h =
    let yes : leb (i + length bytes) (length buf) ≡ true = ground arith in rw yes refl

pub copy_out-inside :
    (buf : Bytes) (i n : ℕ) → i + n ≤ length buf → copy_out buf i n ≡ done (take n (drop i buf))
copy_out-inside buf i n h = let yes : leb (i + n) (length buf) ≡ true = ground arith in rw yes refl

pub copy_in-past :
    (buf : Bytes) (i : ℕ) (bytes : Bytes)
    → length buf < i + length bytes
    → copy_in buf i bytes ≡ fault
copy_in-past buf i bytes h =
    let no : leb (i + length bytes) (length buf) ≡ false = ground arith in rw no refl

pub copy_out-past : (buf : Bytes) (i n : ℕ) → length buf < i + n → copy_out buf i n ≡ fault
copy_out-past buf i n h = let no : leb (i + n) (length buf) ≡ false = ground arith in rw no refl

pub length-splice :
    (buf : Bytes) (i : ℕ) (bytes : Bytes)
    → i + length bytes ≤ length buf
    → length (splice buf i bytes) ≡ length buf
length-splice buf i bytes h = omega (
  arith,
  length-append (take i buf) (bytes ++ drop (i + length bytes) buf),
  length-append bytes (drop (i + length bytes) buf),
  length-take i buf,
  length-drop (i + length bytes) buf,
)

front :
    (buf : Bytes) (i : ℕ) (bytes : Bytes)
    → i ≤ length buf
    → length (take i buf ++ bytes) ≡ i + length bytes
front buf i bytes h = omega (arith, length-append (take i buf) bytes, length-take i buf)

pub take-splice :
    (buf : Bytes) (i k : ℕ) (bytes : Bytes)
    → i ≤ length buf
    → k ≡ i + length bytes
    → take k (splice buf i bytes) ≡ take i buf ++ bytes
take-splice buf i k bytes h e =
    ap (λ t. take k t) (sym (append_assoc (take i buf) bytes (drop (i + length bytes) buf)))
    ∙ ap (λ t. take t ((take i buf ++ bytes) ++ drop (i + length bytes) buf))
        (e ∙ sym (front buf i bytes h))
    ∙ take-append (take i buf ++ bytes) (drop (i + length bytes) buf)

pub drop-splice :
    (buf : Bytes) (i m : ℕ) (bytes : Bytes)
    → i ≤ length buf
    → drop (i + length bytes + m) (splice buf i bytes) ≡ drop (i + length bytes + m) buf
drop-splice buf i m bytes h =
    sym (drop-drop (i + length bytes) m (splice buf i bytes))
    ∙ ap (λ t. drop m t)
        (ap (λ t. drop (i + length bytes) t)
            (sym (append_assoc (take i buf) bytes (drop (i + length bytes) buf)))
          ∙ ap (λ t. drop t ((take i buf ++ bytes) ++ drop (i + length bytes) buf))
              (sym (front buf i bytes h))
          ∙ drop-append (take i buf ++ bytes) (drop (i + length bytes) buf))
    ∙ drop-drop (i + length bytes) m buf

-- What follows the spliced bytes, and the bytes themselves
pub splice-splice :
    (buf : Bytes) (i k m j : ℕ) (bytes rest : Bytes)
    → i ≤ length buf
    → k ≡ i + length bytes
    → j ≡ i + length bytes + m
    → take k (splice buf i bytes) ++ (rest ++ drop (k + m) (splice buf i bytes))
      ≡ take i buf ++ ((bytes ++ rest) ++ drop j buf)
splice-splice buf i k m j bytes rest h ek ej =
    ap (λ t. t ++ (rest ++ drop (k + m) (splice buf i bytes))) (take-splice buf i k bytes h ek)
    ∙ ap (λ t. (take i buf ++ bytes) ++ (rest ++ t))
        (ap (λ t. drop (t + m) (splice buf i bytes)) ek
          ∙ drop-splice buf i m bytes h
          ∙ ap (λ t. drop t buf) (sym ej))
    ∙ append_assoc (take i buf) bytes (rest ++ drop j buf)
    ∙ ap (λ t. take i buf ++ t) (sym (append_assoc bytes rest (drop j buf)))

pub splice-none : (buf : Bytes) (i k : ℕ) → k ≡ i → take i buf ++ drop k buf ≡ buf
splice-none buf i k e = ap (λ t. take i buf ++ drop t buf) e ∙ take-append-drop i buf
