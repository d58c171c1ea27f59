-- ===== src/Conn/Keys.antt =====
-- crypto/sgn.cc, the constructors of SSLSigner and SSLVerifier and the generators of keys, with the
-- guards of utils/common.h that they put around handles of OpenSSL.
pub mod Released
pub mod NoRawKey
use udp_stuff.Base.{
  ℕ, zero, suc, ◌+◌, ◌^◌, ◌%◌, ◌==◌, if◌then◌else◌, Bool, true, false, List, [], ◌∷◌, ◌++◌, Bytes,
  length, take, replicate, sub64, ◌-◌, Option, none, some, Outcome, done, throws, fault, hangs,
  Exception, ssl_error, bad_alloc, copy_in,
}
use udp_stuff.Net.Guard.{Event, own, give_back}

-- What a call for the bytes of a key returns, the length that it sets, and what it writes.
pub record Raw : Type 0 where
  pub ret : ℕ
  pub len : ℕ
  pub bytes : Bytes

-- The library, with a state of its own, and the allocator. A null handle is `none`, an `int` is its
-- bits, and a call for the bytes of a key gets the room that there is, or a null pointer.
pub record Library : Type 1 where
  pub St : Type 0
  pub allocates : ℕ → Bool
  pub ctx_new_id : ℕ → St → Option ℕ × St
  pub keygen_init : Option ℕ → St → ℕ × St
  pub set_rsa_keygen_bits : Option ℕ → ℕ → St → ℕ × St
  pub set_ec_paramgen_curve_nid : Option ℕ → ℕ → St → ℕ × St
  pub keygen : Option ℕ → St → (ℕ × Option ℕ) × St
  pub get_raw_public_key : Option ℕ → Option ℕ → St → Raw × St
  pub get_raw_private_key : Option ℕ → Option ℕ → St → Raw × St
  pub new_raw_private_key : ℕ → Bytes → St → Option ℕ × St
  pub new_raw_public_key : ℕ → Bytes → St → Option ℕ × St
  pub md_ctx_create : St → Option ℕ × St
  pub digest_sign_init : Option ℕ → Option ℕ → St → ℕ × St
  pub digest_verify_init : Option ℕ → Option ℕ → St → ℕ × St

-- The numbers of openssl/evp.h and openssl/obj_mac.h
abbrev pub evp_pkey_rsa : ℕ
evp_pkey_rsa = 6

abbrev pub evp_pkey_ec : ℕ
evp_pkey_ec = 408

abbrev pub nid_x9_62_prime256v1 : ℕ
nid_x9_62_prime256v1 = 415

pub data Part : Type 0 where
  public_part private_part : Part

-- The elements after `std::vector::resize`
abbrev pub resized : Bytes → ℕ → Bytes
resized v n = take n v ++ replicate (n - length v) 0

module _ (lib : Library) where
  -- The state of the library, what became of the handles, the member `ctx` of the object that is
  -- constructed, and the two vectors of the caller.
  pub record Env : Type 0 where
    pub st : lib.St
    pub log : List Event
    pub ctx : Option ℕ
    pub pubkey : Bytes
    pub privkey : Bytes

  -- No handle is owned, and there is no object yet.
  abbrev pub fresh : lib.St → Bytes → Bytes → Env
  fresh s pubkey privkey = record {
    st = s;
    log = [];
    ctx = none;
    pubkey = pubkey;
    privkey = privkey;
  }

  abbrev pub Action : Type 0 → Type 0
  Action A = Env → Outcome A × Env

  abbrev pub follow : {A B : Type 0} → Outcome A × Env → (A → Action B) → Outcome B × Env
  follow (done a, e) f = f a e
  follow (throws x, e) f = (throws x, e)
  follow (fault, e) f = (fault, e)
  follow (hangs, e) f = (hangs, e)

  infixl 5 ◌>>=◌ ◌>>◌
  unfoldable pub ◌>>=◌ : {A B : Type 0} → Action A → (A → Action B) → Action B
  ◌>>=◌ m f e = follow (m e) f

  abbrev pub ◌>>◌ : {A B : Type 0} → Action A → Action B → Action B
  m >> k = m >>= λ _. k

  unfoldable pub call : {A : Type 0} → (lib.St → A × lib.St) → Action A
  call f e = let (a, s) = f e.st in (done a, record e { st = s })

  unfoldable pub scall : ℕ → Action Unit
  scall ret_val e = (if ret_val == 0 then throws ssl_error else done tt, e)

  unfoldable pub scall_ptr : Option ℕ → Action Unit
  scall_ptr none e = (throws ssl_error, e)
  scall_ptr (some h) e = (done tt, e)

  -- The end of the scope of a guard, which is not reached after undefined behaviour.
  abbrev pub leave : {A : Type 0} → Option ℕ → Outcome A × Env → Outcome A × Env
  leave h (done a, e) = (done a, record e { log = give_back h e.log })
  leave h (throws x, e) = (throws x, record e { log = give_back h e.log })
  leave h (fault, e) = (fault, e)
  leave h (hangs, e) = (hangs, e)

  unfoldable pub guarded : {A : Type 0} → Option ℕ → Action A → Action A
  guarded h body e = leave h (body (record e { log = own h e.log }))

  -- `ctx = h`, of a guard that is made of the pointer
  unfoldable pub assign_ctx : Option ℕ → Action Unit
  assign_ctx h e = (done tt, record e { log = give_back e.ctx (own h e.log); ctx = h })

  -- A constructor that throws destroys the members.
  abbrev pub constructed : Outcome (Unit {0}) × Env → Outcome (Unit {0}) × Env
  constructed (done a, e) = (done a, e)
  constructed (throws x, e) = (throws x, record e { log = give_back e.ctx e.log; ctx = none })
  constructed (fault, e) = (fault, e)
  constructed (hangs, e) = (hangs, e)

  abbrev pub vector_of : Part → Env → Bytes
  vector_of public_part e = e.pubkey
  vector_of private_part e = e.privkey

  abbrev pub with_vector : Part → Env → Bytes → Env
  with_vector public_part e v = record e { pubkey = v }
  with_vector private_part e v = record e { privkey = v }

  abbrev pub raw_key : Part → Option ℕ → Option ℕ → lib.St → Raw × lib.St
  raw_key public_part = lib.get_raw_public_key
  raw_key private_part = lib.get_raw_private_key

  unfoldable pub resize : Part → ℕ → Action Unit
  resize p n e =
      if lib.allocates n
      then (done tt, with_vector p e (resized (vector_of p e) n))
      else (throws bad_alloc, e)

  -- What the library writes through the pointer to the elements.
  abbrev pub stored : Part → Env → Outcome Bytes → Outcome (Unit {0}) × Env
  stored p e (done v) = (done tt, with_vector p e v)
  stored p e (throws x) = (throws x, e)
  stored p e fault = (fault, e)
  stored p e hangs = (hangs, e)

  unfoldable pub write_vector : Part → Bytes → Action Unit
  write_vector p bytes e = stored p e (copy_in (vector_of p e) 0 bytes)

  -- The length of a key, room for it in the vector, and its bytes.
  unfoldable pub export_key : Part → Option ℕ → Action Unit
  export_key p key = do
    first ← call (raw_key p key none)
    scall first.ret
    resize p first.len
    second ← call (raw_key p key (some first.len))
    write_vector p second.bytes
    scall second.ret

  unfoldable pub take_key : Option ℕ → Action Unit
  take_key pkey = do
    (ret, key) ← call (lib.keygen pkey)
    guarded key (scall ret >> export_key public_part key >> export_key private_part key)

  -- The library takes the number of bits as an `int`.
  unfoldable pub generate_rsa_key : ℕ → Action Unit
  generate_rsa_key bits = do
    pkey ← call (lib.ctx_new_id evp_pkey_rsa)
    guarded pkey (do
      scall_ptr pkey
      init ← call (lib.keygen_init pkey)
      scall init
      set_bits ← call (lib.set_rsa_keygen_bits pkey (bits % 2 ^ 32))
      scall set_bits
      take_key pkey)

  -- The curve is always the same.
  unfoldable pub generate_ecdsa_key : ℕ → Action Unit
  generate_ecdsa_key curve_nid = do
    pkey ← call (lib.ctx_new_id evp_pkey_ec)
    guarded pkey (do
      scall_ptr pkey
      init ← call (lib.keygen_init pkey)
      scall init
      set_curve ← call (lib.set_ec_paramgen_curve_nid pkey nid_x9_62_prime256v1)
      scall set_curve
      take_key pkey)

  -- The body of a constructor, of the key and the call that starts the digest.
  unfoldable pub open_ctx : Option ℕ → (Option ℕ → Option ℕ → lib.St → ℕ × lib.St) → Action Unit
  open_ctx pkey digest_init = guarded pkey (do
    scall_ptr pkey
    ctx ← call lib.md_ctx_create
    assign_ctx ctx
    scall_ptr ctx
    init ← call (digest_init ctx pkey)
    scall init)

  unfoldable pub make_signer : ℕ → Bytes → Action Unit
  make_signer type priv_key e = constructed (
      (do pkey ← call (lib.new_raw_private_key type priv_key); open_ctx pkey lib.digest_sign_init)
        e)

  unfoldable pub make_verifier : ℕ → Bytes → Action Unit
  make_verifier type pub_key e = constructed (
      (do pkey ← call (lib.new_raw_public_key type pub_key); open_ctx pkey lib.digest_verify_init)
        e)
