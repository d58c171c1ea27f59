-- ===== src/Base/Fallible.antt =====
-- What a call may come to: a value, an exception, undefined behaviour, or a loop with no end.
use mathlib.Core.Path.{◌≡◌, refl}
use Prim.Native.Nat.{ℕ}

-- The exceptions that the program throws. The text of a message is left out, its numbers are not.
pub data Exception : Type 0 where
  bad_alloc runtime_error out_of_range ssl_error connection_error : Exception
  parse_error : (line : ℕ) → Exception
  protocol_error : (size limit : ℕ) → Exception
  no_handler : Exception
  stream_finished : Exception

pub data Outcome {ℓ} (A : Type ℓ) : Type ℓ where
  done : A → Outcome A
  throws : Exception → Outcome A
  fault : Outcome A
  hangs : Outcome A

infixl 5 ◌>>=◌ ◌>>◌
abbrev pub ◌>>=◌ {ℓ κ} : {A : Type ℓ} {B : Type κ} → Outcome A → (A → Outcome B) → Outcome B
done a >>= f = f a
throws e >>= f = throws e
fault >>= f = fault
hangs >>= f = hangs

abbrev pub ◌>>◌ {ℓ} : {B : Type ℓ} → Outcome (Unit {0}) → Outcome B → Outcome B
m >> k = m >>= λ _. k

pub >>=-eq-done {ℓ κ} :
    {A : Type ℓ} {B : Type κ} (m : Outcome A) (f : A → Outcome B) {b : B}
    → (m >>= f) ≡ done b
    → (a : A) × (m ≡ done a) × (f a ≡ done b)
>>=-eq-done (done a) f h = (a, refl, h)
>>=-eq-done (throws e) f h = cc
>>=-eq-done fault f h = cc
>>=-eq-done hangs f h = cc
