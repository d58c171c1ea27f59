-- ===== src/Conn/Keys/NoRawKey.antt =====
-- The generators of keys over a library that gives out no raw private keys of the types that they
-- make, as OpenSSL documents of RSA and of EC.
use udp_stuff.Base.{
  ℕ, ◌%◌, ◌^◌, ◌≡◌, ◌≢◌, refl, ◌∙◌, Bool-cases, inl, inr, Bytes, Option, none, some, Outcome, done,
  throws, fault, hangs, copy_in,
}
use udp_stuff.Conn.Keys.{
  Library, public_part, private_part, Env, fresh, Action, follow, ◌>>=◌, call, scall, scall_ptr,
  leave, guarded, stored, resize, write_vector, export_key, take_key, generate_rsa_key,
  generate_ecdsa_key, evp_pkey_rsa, evp_pkey_ec, nid_x9_62_prime256v1,
}

module _ (lib : Library) where
  -- An action that leaves the second vector alone, and one that also does not return.
  unfoldable Keeps : {A : Type 0} → Action lib A → Type 0
  Keeps m = (e : Env lib) → (m e).1.privkey ≡ e.privkey

  unfoldable Fails : {A : Type 0} → Action lib A → Type 0
  Fails {A} m = (e : Env lib) → ((a : A) → (m e).0 ≢ done a) × ((m e).1.privkey ≡ e.privkey)

  follow-Keeps :
      {A B : Type 0} (v : Bytes) (r : Outcome A × Env lib) (f : A → Action lib B)
      → ((a : A) (e : Env lib) → (f a e).1.privkey ≡ e.privkey)
      → r.1.privkey ≡ v
      → (follow lib r f).1.privkey ≡ v
  follow-Keeps v (done a, e) f kf h = kf a e ∙ h
  follow-Keeps v (throws t, e) f kf h = h
  follow-Keeps v (fault, e) f kf h = h
  follow-Keeps v (hangs, e) f kf h = h

  follow-Fails :
      {A B : Type 0} (r : Outcome A × Env lib) (f : A → Action lib B)
      → ((a : A) (e : Env lib) (b : B) → (f a e).0 ≢ done b)
      → (b : B) → (follow lib r f).0 ≢ done b
  follow-Fails (done a, e) f ff b = ff a e b
  follow-Fails (throws t, e) f ff b = λ h. cc
  follow-Fails (fault, e) f ff b = λ h. cc
  follow-Fails (hangs, e) f ff b = λ h. cc

  then-Keeps :
      {A B : Type 0} (m : Action lib A) (f : A → Action lib B)
      → Keeps m
      → ((a : A) → Keeps (f a))
      → Keeps (◌>>=◌ lib m f)
  unfolding Keeps ◌>>=◌
  then-Keeps m f km kf e = follow-Keeps e.privkey (m e) f kf (km e)

  then-Fails :
      {A B : Type 0} (m : Action lib A) (f : A → Action lib B)
      → Keeps m
      → ((a : A) → Fails (f a))
      → Fails (◌>>=◌ lib m f)
  unfolding Keeps Fails ◌>>=◌
  then-Fails m f km ff e = (
    follow-Fails (m e) f (λ a e'. (ff a e').0),
    follow-Keeps e.privkey (m e) f (λ a e'. (ff a e').1) (km e),
  )

  leave-Fails :
      {A : Type 0} (h : Option ℕ) (r : Outcome A × Env lib) (v : Bytes)
      → ((a : A) → r.0 ≢ done a) × (r.1.privkey ≡ v)
      → ((a : A) → (leave lib h r).0 ≢ done a) × ((leave lib h r).1.privkey ≡ v)
  leave-Fails h (done a, e) v p = p
  leave-Fails h (throws t, e) v p = p
  leave-Fails h (fault, e) v p = p
  leave-Fails h (hangs, e) v p = p

  guarded-Fails :
      {A : Type 0} (h : Option ℕ) (body : Action lib A) → Fails body → Fails (guarded lib h body)
  unfolding Fails guarded
  guarded-Fails h body fb e = leave-Fails h _ e.privkey (fb _)

  call-Keeps : {A : Type 0} (f : lib.St → A × lib.St) → Keeps (call lib f)
  unfolding Keeps call
  call-Keeps f e = refl

  scall-Keeps : (ret_val : ℕ) → Keeps (scall lib ret_val)
  unfolding Keeps scall
  scall-Keeps ret_val e = refl

  scall_ptr-Keeps : (p : Option ℕ) → Keeps (scall_ptr lib p)
  unfolding Keeps scall_ptr
  scall_ptr-Keeps none e = refl
  scall_ptr-Keeps (some p) e = refl

  resize-Keeps : (len : ℕ) → Keeps (resize lib public_part len)
  unfolding Keeps resize
  resize-Keeps len e = elim (Bool-cases (lib.allocates len)) [
    | inl room ↦ rw room refl
    | inr full ↦ rw full refl
  ]

  stored-Keeps :
      (e : Env lib) (r : Outcome Bytes) → (stored lib public_part e r).1.privkey ≡ e.privkey
  stored-Keeps e (done v) = refl
  stored-Keeps e (throws t) = refl
  stored-Keeps e fault = refl
  stored-Keeps e hangs = refl

  write_vector-Keeps : (bytes : Bytes) → Keeps (write_vector lib public_part bytes)
  unfolding Keeps write_vector
  write_vector-Keeps bytes e = stored-Keeps e (copy_in e.pubkey 0 bytes)

  export_key-Keeps : (key : Option ℕ) → Keeps (export_key lib public_part key)
  unfolding export_key
  export_key-Keeps key = then-Keeps _ _ (call-Keeps (lib.get_raw_public_key key none)) λ first.
      then-Keeps _ _ (scall-Keeps first.ret) λ _. then-Keeps _ _ (resize-Keeps first.len) λ _.
        then-Keeps _ _ (call-Keeps (lib.get_raw_public_key key (some first.len)))
          λ second. then-Keeps _ _ (write_vector-Keeps second.bytes) λ _. scall-Keeps second.ret

  module _
      (unsupported : (key : Option ℕ) (room : Option ℕ) (s : lib.St)
        → (lib.get_raw_private_key key room s).0.ret ≡ 0) where
    export_key-Fails : (key : Option ℕ) → Fails (export_key lib private_part key)
    unfolding export_key Fails ◌>>=◌ call scall
    export_key-Fails key e = let zero_ = unsupported key none e.st in rw zero_ (λ a h. cc, refl)

    take_key-Fails : (pkey : Option ℕ) → Fails (take_key lib pkey)
    unfolding take_key
    take_key-Fails pkey = then-Fails _ _ (call-Keeps (lib.keygen pkey)) λ made.
        guarded-Fails made.1 _ (
          then-Fails _ _ (then-Keeps _ _ (scall-Keeps made.0) λ _. export_key-Keeps made.1)
            λ _. export_key-Fails made.1)

    -- A generator: a context, the call that sets it up, and the rest.
    generate-Fails :
        (type : ℕ) (configure : Option ℕ → lib.St → ℕ × lib.St)
        → Fails (
            ◌>>=◌ lib (call lib (lib.ctx_new_id type)) λ pkey. guarded lib pkey (
              ◌>>=◌ lib (scall_ptr lib pkey) λ _.
                ◌>>=◌ lib (call lib (lib.keygen_init pkey)) λ init. ◌>>=◌ lib (scall lib init) λ _.
                  ◌>>=◌ lib
                    (call lib (configure pkey))
                    λ set. ◌>>=◌ lib (scall lib set) λ _. take_key lib pkey))
    generate-Fails type configure = then-Fails _ _ (call-Keeps (lib.ctx_new_id type)) λ pkey.
        guarded-Fails pkey _ (
          then-Fails _ _ (scall_ptr-Keeps pkey) λ _.
            then-Fails _ _ (call-Keeps (lib.keygen_init pkey)) λ init.
              then-Fails _ _ (scall-Keeps init) λ _.
                then-Fails _ _ (call-Keeps (configure pkey))
                  λ set. then-Fails _ _ (scall-Keeps set) λ _. take_key-Fails pkey)

    -- Where the library gives out no raw private key, neither generate_rsa_key nor
    -- generate_ecdsa_key returns, whatever its other calls answer, and the vector for the private key
    -- stays as it was.
    pub generate_keys-fail :
        (s : lib.St) (pubkey privkey : Bytes) (bits curve_nid : ℕ)
        → ((generate_rsa_key lib bits (fresh lib s pubkey privkey)).0 ≢ done tt)
          × ((generate_rsa_key lib bits (fresh lib s pubkey privkey)).1.privkey ≡ privkey)
          × ((generate_ecdsa_key lib curve_nid (fresh lib s pubkey privkey)).0 ≢ done tt)
          × ((generate_ecdsa_key lib curve_nid (fresh lib s pubkey privkey)).1.privkey ≡ privkey)
    unfolding generate_rsa_key generate_ecdsa_key Fails
    generate_keys-fail s pubkey privkey bits curve_nid =
        let rsa =
          generate-Fails evp_pkey_rsa (λ c. lib.set_rsa_keygen_bits c (bits % 2 ^ 32))
            (fresh lib s pubkey privkey) in
        let ec =
          generate-Fails evp_pkey_ec (λ c. lib.set_ec_paramgen_curve_nid c nid_x9_62_prime256v1)
            (fresh lib s pubkey privkey) in
        (rsa.0 tt, rsa.1, ec.0 tt, ec.1)
