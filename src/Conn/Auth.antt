-- ===== src/Conn/Auth.antt =====
-- crypto/auth.h and crypto/auth.cc: the ids of peers, and the check of a peer's certificate.
pub mod Accepts
use udp_stuff.Base.{
  ℕ, zero, suc, ◌+◌, ◌-◌, ◌*◌, ◌/◌, ◌%◌, ◌^◌, Bool, true, false, not, ◌&&◌, ◌||◌, List, [], ◌∷◌,
  ◌++◌, Bytes, length, Option, none, some, ltb, leb, ◌==◌, if◌then◌else◌, Outcome, done, throws,
  fault, hangs, ssl_error, ◌>>=◌,
}

-- The words of two ids, of which there are equally many.
unfoldable pub id_eq : List ℕ → List ℕ → Bool
id_eq [] [] = true
id_eq (x ∷ xs) (y ∷ ys) = let rest = id_eq xs ys in if x == y then rest else false
id_eq _ _ = false

unfoldable pub id_hash : List ℕ → ℕ
id_hash words = go 0 words
  where
    go : ℕ → List ℕ → ℕ
    go v [] = v
    go v (w ∷ ws) = go ((v + w) % 2 ^ 64) ws

-- What OpenSSL answers in the callback. A certificate is what its key comes to: nothing if it has none, else the
-- bytes of the key's subject form, if there are any.
abbrev pub Cert : Type 0
Cert = Option (Option Bytes)

pub record StoreCtx : Type 0 where
  pub chain : List Cert
  pub store_idx : Option ℕ  -- nothing where the library gives a negative number
  pub ssl : Option (Option (List ℕ))  -- the SSL object, with the id that was stored in it

-- `scall` on a pointer.
abbrev pub scall_ptr : {A : Type 0} → Option A → Outcome A
scall_ptr none = throws ssl_error
scall_ptr (some a) = done a

abbrev first_cert : List Cert → Option Cert
first_cert [] = none
first_cert (c ∷ cs) = some c

abbrev subject : Option Bytes → Outcome Bytes
subject none = throws ssl_error
subject (some key) = if length key == 0 then throws ssl_error else done key

abbrev caught : Outcome (Unit {0}) → Outcome ℕ
caught (done u) = done 1
caught (throws e) = done 0
caught fault = fault
caught hangs = hangs

module _ (peer_id_from_sha512 : Bytes → Outcome (List ℕ)) where
  unfoldable pub peer_id_from_cert : Cert → Outcome (List ℕ)
  peer_id_from_cert cert = do
    pubkey ← scall_ptr cert
    info ← subject pubkey
    peer_id_from_sha512 info

  -- The body of the `try`.
  unfoldable pub check_peer : StoreCtx → Outcome (Unit {0})
  unfolding peer_id_from_cert id_eq
  check_peer ctx =
      let n = length ctx.chain in
      if ltb n 1 || ltb 4 n then throws ssl_error else (do
        peer_cert ← scall_ptr (first_cert ctx.chain)
        current_peer_id ← peer_id_from_cert peer_cert
        idx ← scall_ptr ctx.store_idx
        ssl ← scall_ptr ctx.ssl
        expected ← scall_ptr ssl
        if not (id_eq current_peer_id expected) then throws ssl_error else done tt)

  unfoldable pub ssl_peer_id_verify_handler : Bool → StoreCtx → Outcome ℕ
  unfolding check_peer
  ssl_peer_id_verify_handler preverify_ok ctx =
      if preverify_ok then caught (check_peer ctx) else done 0
