-- ===== src/Conn/KeyTests.antt =====
-- Keys over a library that gives them out, and over one that gives no raw private key.
use udp_stuff.Base.{
  ℕ, ◌+◌, ◌≡◌, ◌≢◌, refl, true, [], ◌∷◌, Bytes, Option, none, some, done, throws, ssl_error,
}
use udp_stuff.Net.Guard.{owned, given_back}
use udp_stuff.Conn.Keys.{
  Raw, Library, fresh, ◌>>=◌, call, scall, scall_ptr, guarded, assign_ctx, resize, write_vector,
  export_key, take_key, generate_rsa_key, generate_ecdsa_key, open_ctx, make_signer, make_verifier,
}
use udp_stuff.Conn.Keys.Released.{Released}
use udp_stuff.Conn.Keys.NoRawKey.{generate_keys-fail}

-- The state counts the handles.
abbrev next_handle : ℕ → Option ℕ × ℕ
next_handle s = (some s, s + 1)

abbrev gives : Bytes → ℕ → Raw × ℕ
gives bytes s = (record { ret = 1; len = 2; bytes = bytes }, s)

abbrev works : Library
works = record {
  St = ℕ;
  allocates = λ n. true;
  ctx_new_id = λ type s. next_handle s;
  keygen_init = λ c s. (1, s);
  set_rsa_keygen_bits = λ c bits s. (1, s);
  set_ec_paramgen_curve_nid = λ c nid s. (1, s);
  keygen = λ c s. ((1, some s), s + 1);
  get_raw_public_key = λ key room s. gives (7 ∷ 8 ∷ []) s;
  get_raw_private_key = λ key room s. gives (9 ∷ 9 ∷ []) s;
  new_raw_private_key = λ type raw s. next_handle s;
  new_raw_public_key = λ type raw s. (none, s);
  md_ctx_create = λ s. next_handle s;
  digest_sign_init = λ c key s. (1, s);
  digest_verify_init = λ c key s. (1, s);
}

abbrev no_raw_key : Library
no_raw_key = record works {
  get_raw_private_key = λ key room s. (record { ret = 0; len = 0; bytes = [] }, s);
}

rsa_key_made : generate_rsa_key works 2048 (fresh works 1 (5 ∷ 5 ∷ 5 ∷ []) []) ≡ (
  done tt,
  record {
    st = 3;
    log = given_back 1 ∷ given_back 2 ∷ owned 2 ∷ owned 1 ∷ [];
    ctx = none;
    pubkey = 7 ∷ 8 ∷ [];
    privkey = 9 ∷ 9 ∷ [];
  },
)
unfolding generate_rsa_key take_key export_key ◌>>=◌ call scall scall_ptr guarded resize
    write_vector
rsa_key_made = refl

signer_made : make_signer works 1087 (3 ∷ []) (fresh works 1 [] []) ≡ (
  done tt,
  record {
    st = 3;
    log = given_back 1 ∷ owned 2 ∷ owned 1 ∷ [];
    ctx = some 2;
    pubkey = [];
    privkey = [];
  },
)
unfolding make_signer open_ctx assign_ctx ◌>>=◌ call scall scall_ptr guarded
signer_made = refl

verifier_refused : (make_verifier works 1087 (3 ∷ []) (fresh works 1 [] [])).0 ≡ throws ssl_error
unfolding make_verifier open_ctx assign_ctx ◌>>=◌ call scall scall_ptr guarded
verifier_refused = refl

generate_keys-fail_example :
    ((generate_rsa_key no_raw_key 2048 (fresh no_raw_key 1 [] (4 ∷ []))).0 ≢ done tt)
    × ((generate_rsa_key no_raw_key 2048 (fresh no_raw_key 1 [] (4 ∷ []))).1.privkey ≡ 4 ∷ [])
    × ((generate_ecdsa_key no_raw_key 415 (fresh no_raw_key 1 [] (4 ∷ []))).0 ≢ done tt)
    × ((generate_ecdsa_key no_raw_key 415 (fresh no_raw_key 1 [] (4 ∷ []))).1.privkey ≡ 4 ∷ [])
generate_keys-fail_example =
    generate_keys-fail no_raw_key (λ key room s. refl) 1 [] (4 ∷ []) 2048 415
