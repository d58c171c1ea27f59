-- ===== src/Conn/Auth/Accepts.antt =====
-- Whom the check of a certificate lets in.
use udp_stuff.Base.{
  ℕ, ◌≤◌, ◌≡◌, inl, inr, refl, ap, ap₂, sym, arith, ◌∙◌, Bool, true, false, not, ◌||◌, List, [],
  ◌∷◌, Bytes, length, Option, none, some, >>=-eq-done, ltb, ◌==◌, if◌then◌else◌, Outcome, done,
  throws, fault, hangs, ssl_error, Bool-cases,
}
use udp_stuff.Conn.Auth.{
  id_eq, Cert, StoreCtx, scall_ptr, first_cert, subject, peer_id_from_cert, caught, check_peer,
  ssl_peer_id_verify_handler,
}

pub id_eq_lem : (a b : List ℕ) → id_eq a b ≡ true → a ≡ b
unfolding id_eq
id_eq_lem [] [] h = refl
id_eq_lem [] (y ∷ ys) h = cc
id_eq_lem (x ∷ xs) [] h = cc
id_eq_lem (x ∷ xs) (y ∷ ys) h = elim (Bool-cases (x == y)) [
  | inl e ↦
      let rest : id_eq xs ys ≡ true = ground (arith, h) in
      let head : x ≡ y = ground arith in ap₂ (λ z zs. z ∷ zs) head (id_eq_lem xs ys rest)
  | inr e ↦ ground (arith, h)
]

-- The chain, the key and the stored id of a peer that is let in.
abbrev pub Trusted : (Bytes → Outcome (List ℕ)) → StoreCtx → Type 0
Trusted peer_id_from_sha512 ctx =
    (key : Bytes) × (id : List ℕ) × (others : List Cert) × (ctx.chain ≡ some (some key) ∷ others)
    × (length ctx.chain ≤ 4)
    × (peer_id_from_sha512 key ≡ done id)
    × (ctx.ssl ≡ some (some id))

scall_ptr_lem : {A : Type 0} (m : Option A) (a : A) → scall_ptr m ≡ done a → m ≡ some a
scall_ptr_lem none a e = cc
scall_ptr_lem (some b) a e = cc

first_cert_lem :
    (cs : List Cert) (c : Cert) → first_cert cs ≡ some c → (others : List Cert) × (cs ≡ c ∷ others)
first_cert_lem [] c e = cc
first_cert_lem (d ∷ ds) c e = (ds, cc)

subject_lem : (m : Option Bytes) (key : Bytes) → subject m ≡ done key → m ≡ some key
subject_lem none key e = cc
subject_lem (some k) key e = ground (arith, e)

abbrev accepted : Outcome (Unit {0})
accepted = done tt

matched : (b : Bool) → (if not b then throws ssl_error else accepted) ≡ accepted → b ≡ true
matched true e = refl
matched false e = cc

check_peer_lem :
    (peer_id_from_sha512 : Bytes → Outcome (List ℕ)) (ctx : StoreCtx)
    → check_peer peer_id_from_sha512 ctx ≡ done tt
    → Trusted peer_id_from_sha512 ctx
unfolding check_peer peer_id_from_cert
check_peer_lem sha ctx e =
    elim (Bool-cases (ltb (length ctx.chain) 1 || ltb 4 (length ctx.chain))) [
      | inl bad ↦ ground (arith, e, bad)
      | inr fine ↦
          let short : length ctx.chain ≤ 4 = ground (arith, fine) in
          let e0 = rw fine at e in
          let (cert, a, e1) = >>=-eq-done (scall_ptr (first_cert ctx.chain)) _ e0 in
          let (id, b, e2) = >>=-eq-done (peer_id_from_cert sha cert) _ e1 in
          let (idx, c, e3) = >>=-eq-done (scall_ptr ctx.store_idx) _ e2 in
          let (ssl, d, e4) = >>=-eq-done (scall_ptr ctx.ssl) _ e3 in
          let (expected, f, e5) = >>=-eq-done (scall_ptr ssl) _ e4 in
          let same : id_eq id expected ≡ true = matched _ e5 in
          let (others, g) = first_cert_lem ctx.chain cert (scall_ptr_lem _ _ a) in
          let (pubkey, h, b1) = >>=-eq-done (scall_ptr cert) _ b in
          let (key, i, b2) = >>=-eq-done (subject pubkey) _ b1 in
          let has_key : cert ≡ some (some key) =
            scall_ptr_lem _ _ h ∙ ap some (subject_lem pubkey key i) in
          let stored : ctx.ssl ≡ some (some id) =
            scall_ptr_lem _ _ d
            ∙ ap some (scall_ptr_lem _ _ f ∙ ap some (sym (id_eq_lem id expected same))) in
          (key, id, others, g ∙ ap (λ x. x ∷ others) has_key, short, b2, stored)
    ]

caught_lem : (m : Outcome (Unit {0})) → caught m ≡ done 1 → m ≡ done tt
caught_lem (done u) e = refl
caught_lem (throws x) e = ground (arith, e)
caught_lem fault e = cc
caught_lem hangs e = cc

-- OpenSSL's own check passed, and the chain's length, the key and the id are as in `Trusted`, whenever the
-- callback accepts a peer: in particular the id that the connection expects is the one that the key of the
-- first certificate gives.
pub verify-Trusted :
    (peer_id_from_sha512 : Bytes → Outcome (List ℕ)) (preverify_ok : Bool) (ctx : StoreCtx)
    → ssl_peer_id_verify_handler peer_id_from_sha512 preverify_ok ctx ≡ done 1
    → (preverify_ok ≡ true) × Trusted peer_id_from_sha512 ctx
unfolding ssl_peer_id_verify_handler
verify-Trusted sha false ctx e = ground (arith, e)
verify-Trusted sha true ctx e = (refl, check_peer_lem sha ctx (caught_lem (check_peer sha ctx) e))
