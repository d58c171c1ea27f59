-- ===== src/Conn/Hasher/Unset.antt =====
-- A hasher whose digest was never set.
use udp_stuff.Base.{ℕ, ◌^◌, ◌≡◌, ◌⊎◌, inl, inr, refl, Bytes, throws, fault, ssl_error, Option-cases}
use udp_stuff.Conn.Hasher.{Evp, make_hasher, start, peer_id_after, peer_id_from_sha512}

after-unset :
    (evp : Evp) (name : Bytes) (seed_1 : Bytes) (seed_2 : Bytes) (rounds : ℕ) (data_ : Bytes)
    → (peer_id_after evp name seed_1 seed_2 rounds data_ ≡ throws ssl_error)
      ⊎ (peer_id_after evp name seed_1 seed_2 rounds data_ ≡ fault)
unfolding peer_id_after make_hasher start
after-unset evp name seed_1 seed_2 rounds data_ = elim (Option-cases (evp.get_digestbyname name)) [
  | inl missing ↦ inl (rw missing refl)
  | inr (md, found) ↦ elim (Option-cases evp.ctx_new) [
    | inl none_left ↦ inl (rw (found, none_left) refl)
    | inr (c, made) ↦ inr (rw (found, made) refl)
  ]
]

-- With every library and for every key, `peer_id_from_sha512` gives no id: it throws, if there is no digest of
-- the name or no context, and else it reads a digest that was never set.
pub peer_id_from_sha512-unset :
    (evp : Evp) (name : Bytes) (seed_1 : Bytes) (seed_2 : Bytes) (data_ : Bytes)
    → (peer_id_from_sha512 evp name seed_1 seed_2 data_ ≡ throws ssl_error)
      ⊎ (peer_id_from_sha512 evp name seed_1 seed_2 data_ ≡ fault)
unfolding peer_id_from_sha512
peer_id_from_sha512-unset evp name seed_1 seed_2 data_ =
    after-unset evp name seed_1 seed_2 (2 ^ 14) data_
