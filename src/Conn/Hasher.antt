-- ===== src/Conn/Hasher.antt =====
-- crypto/sgn.h and crypto/sgn.cc: hashing, signing and verifying over OpenSSL; with crypto/auth.cc,
-- `peer_id_from_sha512`.
pub mod Unset
use udp_stuff.Base.{
  ℕ, zero, suc, ◌+◌, ◌-◌, ◌*◌, ◌/◌, ◌%◌, ◌^◌, Bool, true, false, List, [], ◌∷◌, ◌++◌, Bytes, length,
  Option, none, some, ltb, ◌==◌, if◌then◌else◌, Outcome, done, throws, fault, hangs, ssl_error,
  ◌>>=◌,
}

-- The library: its contexts, its digests, and a call that fails is `none`.
pub record Evp : Type 1 where
  pub Ctx : Type 0
  pub Md : Type 0
  pub get_digestbyname : Bytes → Option Md
  pub ctx_new : Option Ctx
  pub init : Ctx → Option Md → Option Ctx
  pub update : Ctx → Bytes → Option Ctx
  pub final : Ctx → Option (Ctx × Bytes)
  pub reset : Ctx → Option Ctx

module _ (evp : Evp) where
  -- The member `md`: `none` where nothing was ever written to it, `some none` for a null pointer.
  pub record SslHasher : Type 0 where
    pub ctx : evp.Ctx
    pub md : Option (Option evp.Md)

  abbrev scall : {A : Type 0} → Option A → Outcome A
  scall none = throws ssl_error
  scall (some a) = done a

  -- The digest goes to a local variable of the constructor, which has the name of the member.
  unfoldable pub make_hasher : Bytes → Outcome SslHasher
  make_hasher hash_name = do
    local_md ← scall (evp.get_digestbyname hash_name)
    c ← scall evp.ctx_new
    done (record { ctx = c; md = none })

  -- A read of a member that nothing was written to is undefined.
  abbrev read_md : Option (Option evp.Md) → Outcome (Option evp.Md)
  read_md none = fault
  read_md (some md) = done md

  unfoldable pub start : SslHasher → Outcome SslHasher
  start h = do md ← read_md h.md; c ← scall (evp.init h.ctx md); done (record h { ctx = c })

  unfoldable pub put : SslHasher → Bytes → Outcome SslHasher
  put h data_ = do c ← scall (evp.update h.ctx data_); done (record h { ctx = c })

  unfoldable pub finish : SslHasher → Outcome (SslHasher × Bytes)
  finish h = do (c, digest) ← scall (evp.final h.ctx); done (record h { ctx = c }, digest)

  unfoldable pub reset : SslHasher → Outcome SslHasher
  reset h = do c ← scall (evp.reset h.ctx); done (record h { ctx = c })

  -- The handler of `catch (...)`: the error goes on, or that of the reset.
  abbrev or_reset : SslHasher → Outcome (SslHasher × Bytes) → Outcome (SslHasher × Bytes)
  or_reset h (done r) = done r
  or_reset h (throws e) = scall (evp.reset h.ctx) >>= λ c. throws e
  or_reset h fault = fault
  or_reset h hangs = hangs

  unfoldable pub compute_hash : SslHasher → Bytes → Outcome (SslHasher × Bytes)
  unfolding start put finish
  compute_hash h data_ = or_reset h (do a ← start h; b ← put a data_; finish b)

  -- `peer_id` is the digest that was stored in it last.
  unfoldable pub hash_rounds : ℕ → SslHasher → Bytes → Outcome Bytes
  unfolding compute_hash
  hash_rounds zero h id = done id
  hash_rounds (suc n) h id = compute_hash h id >>= λ (h', id'). hash_rounds n h' id'

  module _ (sha512_name : Bytes) (seed_1 : Bytes) (seed_2 : Bytes) where
    unfoldable pub peer_id_after : ℕ → Bytes → Outcome Bytes
    unfolding make_hasher start put finish hash_rounds
    peer_id_after rounds data_ = do
      hasher ← make_hasher sha512_name
      a ← start hasher
      b ← put a seed_1
      c ← put b data_
      d ← put c seed_2
      (e, id) ← finish d
      hash_rounds rounds e id

    unfoldable pub peer_id_from_sha512 : Bytes → Outcome Bytes
    unfolding peer_id_after
    peer_id_from_sha512 data_ = peer_id_after (2 ^ 14) data_

-- `EVP_DigestSign` fails, or gives the length of the signature.
unfoldable pub sign : Option ℕ → ℕ → Outcome ℕ
sign none out_len = throws ssl_error
sign (some sgn_len) out_len = if ltb out_len sgn_len then throws ssl_error else done sgn_len

-- What `EVP_DigestVerify` returns: 1, 0, or something else.
unfoldable pub verify : Option ℕ → Outcome Bool
verify none = throws ssl_error
verify (some n) = if n == 1 then done true else if n == 0 then done false else throws ssl_error
