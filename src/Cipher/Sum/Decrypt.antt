-- ===== src/Cipher/Sum/Decrypt.antt =====
-- `decrypt` after `encrypt`, and sizes below one block.
use udp_stuff.Base.{
  ℕ, zero, suc, ◌+◌, ◌*◌, ◌/◌, ◌%◌, ◌^◌, ◌≤◌, ◌<◌, ◌≡◌, refl, ap, ap₂, sym, ◌∙◌, arith, List, [],
  ◌∷◌, ◌++◌, Bytes, length, take, drop, ◌==◌, true, false, done, fault, ◌>>=◌, append_assoc,
  length-append, take-append, drop-append, drop-drop, dec_lt, sub64,
}
use udp_stuff.Cipher.Vectors.{Block, Vectors, Documented}
use udp_stuff.Cipher.Schedule.{load_key}
use udp_stuff.Cipher.Sum.{encrypt, decrypt, decrypt_blocks}
use udp_stuff.Cipher.Sum.Blocks.{
  cipher, decipher, blocks, bytes_of, sums, map_cipher, differences, last_difference, encrypt_lem,
  decrypt_blocks_lem, ecb_decrypt_lem,
}
use udp_stuff.Base.{splice, copy_in-inside, copy_in-past, copy_out-inside, copy_out-past}

module _ (v : Vectors) (d : Documented v) where
  blocks-bytes_of :
      (bs : List (Block v.Word)) (i : ℕ) (buf rest : Bytes)
      → drop i buf ≡ bytes_of v bs ++ rest
      → blocks v (length bs) i buf ≡ bs
  unfolding blocks bytes_of
  blocks-bytes_of [] i buf rest e = refl
  blocks-bytes_of (b ∷ bs) i buf rest e =
      let here : drop i buf ≡ v.storeu b ++ (bytes_of v bs ++ rest) =
        e ∙ append_assoc (v.storeu b) (bytes_of v bs) rest in
      let first : take 16 (drop i buf) ≡ v.storeu b =
        ap (λ t. take 16 t) here
        ∙ ap (λ t. take t (v.storeu b ++ (bytes_of v bs ++ rest))) (sym (d.length-storeu b))
        ∙ take-append (v.storeu b) (bytes_of v bs ++ rest) in
      let next : drop (i + 16) buf ≡ bytes_of v bs ++ rest =
        sym (drop-drop i 16 buf)
        ∙ ap (λ t. drop 16 t) here
        ∙ ap (λ t. drop t (v.storeu b ++ (bytes_of v bs ++ rest))) (sym (d.length-storeu b))
        ∙ drop-append (v.storeu b) (bytes_of v bs ++ rest) in
      ap₂ ◌∷◌ (ap v.loadu first ∙ d.loadu-storeu b) (blocks-bytes_of bs (i + 16) buf rest next)

  length-bytes_of : (bs : List (Block v.Word)) → length (bytes_of v bs) ≡ 16 * length bs
  unfolding bytes_of
  length-bytes_of [] = refl
  length-bytes_of (b ∷ bs) =
      omega
        (arith, length-append (v.storeu b) (bytes_of v bs), d.length-storeu b, length-bytes_of bs)

  module _ (k0 k1 : Block v.Word) where
    -- `decrypt` of whole blocks: from each deciphered block the block put out before is taken.
    pub decrypt_lem :
        (f : Block v.Word) (out in_buf : Bytes) (n : ℕ)
        → 16 * n < 2 ^ 64
        → 16 * n ≤ length in_buf
        → 16 * n ≤ length out
        → decrypt v (record { expanded_key = load_key v k0 k1; feedback = f }) out in_buf (16 * n)
          ≡ done (
            bytes_of v (differences v (load_key v k0 k1) f (blocks v n 0 in_buf))
                ++ drop (16 * n) out,
            in_buf,
            record {
              expanded_key = load_key v k0 k1;
              feedback = last_difference v (load_key v k0 k1) f (blocks v n 0 in_buf);
            },
          )
    unfolding decrypt
    decrypt_lem f out in_buf n word hi ho =
        let whole : (16 * n % 16 == 0) ≡ true = ground arith in
        rw whole (
          rw (ap (λ (t : ℕ). t) {x = sub64 (16 * n) 0 / 16} {y = n} (omega arith)) (
            rw (decrypt_blocks_lem v d k0 k1 n 0 f out in_buf (omega arith) (omega arith)) (
              ap
                (λ t. done (
                  bytes_of v (differences v (load_key v k0 k1) f (blocks v n 0 in_buf))
                      ++ drop t out,
                  in_buf,
                  record {
                    expanded_key = load_key v k0 k1;
                    feedback = last_difference v (load_key v k0 k1) f (blocks v n 0 in_buf);
                  },
                ))
                {x = 0 + 16 * n} (omega arith))))

    two_differences :
        ((b : Block v.Word) → decipher v (load_key v k0 k1) (cipher v (load_key v k0 k1) b) ≡ b)
        → (f p1 p2 : Block v.Word)
        → differences v
            (load_key v k0 k1)
            f
            (map_cipher v (load_key v k0 k1) (sums v f (p1 ∷ p2 ∷ [])))
          ≡ p1 ∷ v.add_epi64 f p2 ∷ []
    unfolding differences map_cipher sums
    two_differences inverse f p1 p2 =
        let first = ap (λ t. v.sub_epi64 t f) (inverse (v.add_epi64 f p1)) ∙ d.sub-add f p1 in
        let moved : v.add_epi64 (v.add_epi64 f p1) p2 ≡ v.add_epi64 p1 (v.add_epi64 f p2) =
          ap (λ t. v.add_epi64 t p2) (d.add_comm f p1) ∙ d.add_assoc p1 f p2 in
        ap₂ ◌∷◌ first (
          ap (λ t. t ∷ [])
            (ap₂ v.sub_epi64 (inverse (v.add_epi64 (v.add_epi64 f p1) p2) ∙ moved) first
              ∙ d.sub-add p1 (v.add_epi64 f p2)))

    ciphered : Block v.Word → Block v.Word → Block v.Word → List (Block v.Word)
    ciphered f p1 p2 = map_cipher v (load_key v k0 k1) (sums v f (p1 ∷ p2 ∷ []))

    blocks-ciphered :
        (f p1 p2 : Block v.Word) (rest : Bytes)
        → blocks v 2 0 (bytes_of v (ciphered f p1 p2) ++ rest) ≡ ciphered f p1 p2
    unfolding ciphered map_cipher sums
    blocks-ciphered f p1 p2 rest = blocks-bytes_of (ciphered f p1 p2) 0 _ rest refl

    length-ciphered :
        (f p1 p2 : Block v.Word) (rest : Bytes)
        → 32 ≤ length (bytes_of v (ciphered f p1 p2) ++ rest)
    unfolding ciphered map_cipher sums
    length-ciphered f p1 p2 rest = omega (
      arith,
      length-append (bytes_of v (ciphered f p1 p2)) rest,
      length-bytes_of (ciphered f p1 p2),
    )

    two_blocks :
        (p1 p2 : Block v.Word) (rest : Bytes)
        → blocks v 2 0 (v.storeu p1 ++ (v.storeu p2 ++ rest)) ≡ p1 ∷ p2 ∷ []
    unfolding bytes_of
    two_blocks p1 p2 rest = blocks-bytes_of (p1 ∷ p2 ∷ []) 0 _ rest (
        sym (
          append_assoc (v.storeu p1) (v.storeu p2 ++ []) rest
          ∙ ap (λ t. v.storeu p1 ++ t) (append_assoc (v.storeu p2) [] rest)))

    -- Two blocks that are encrypted and decrypted with the same feedback: the first comes back, and
    -- the second comes back with the feedback added, for keys with which the block functions are
    -- inverse to each other.
    pub decrypt-encrypt :
        ((b : Block v.Word) → decipher v (load_key v k0 k1) (cipher v (load_key v k0 k1) b) ≡ b)
        → (f p1 p2 : Block v.Word) (out out' rest : Bytes) → 32 ≤ length out
        → 32 ≤ length out'
        → (encrypt v
              (record { expanded_key = load_key v k0 k1; feedback = f })
              out
              (v.storeu p1 ++ (v.storeu p2 ++ rest))
              32
            >>= λ r.
                decrypt v (record { expanded_key = load_key v k0 k1; feedback = f }) out' r.0 32
                >>= λ t. done t.0)
          ≡ done (v.storeu p1 ++ (v.storeu (v.add_epi64 f p2) ++ drop 32 out'))
    unfolding ciphered bytes_of
    decrypt-encrypt inverse f p1 p2 out out' rest ho ho' =
        let plain = v.storeu p1 ++ (v.storeu p2 ++ rest) in
        let long : 32 ≤ length plain = omega (
          arith,
          length-append (v.storeu p1) (v.storeu p2 ++ rest),
          length-append (v.storeu p2) rest,
          d.length-storeu p1,
          d.length-storeu p2,
        ) in
        rw (encrypt_lem v d k0 k1 f out plain 2 long ho) (
          rw (two_blocks p1 p2 rest) (
            rw
              (decrypt_lem f out' (bytes_of v (ciphered f p1 p2) ++ drop 32 out) 2 (omega arith)
                (length-ciphered f p1 p2 (drop 32 out)) ho')
              (rw (blocks-ciphered f p1 p2 (drop 32 out)) (
                rw (two_differences inverse f p1 p2) (
                  ap done (
                    append_assoc (v.storeu p1) (v.storeu (v.add_epi64 f p2) ++ []) (drop 32 out')
                    ∙ ap (λ t. v.storeu p1 ++ t)
                        (append_assoc (v.storeu (v.add_epi64 f p2)) [] (drop 32 out'))))))))

    -- The loop of `decrypt` reads behind the end of `in` when that ends before the last block.
    decrypt_blocks-fault :
        (n i : ℕ) (f : Block v.Word) (out in_buf : Bytes)
        → i ≤ length in_buf
        → length in_buf < i + 16 * n
        → decrypt_blocks v (load_key v k0 k1) n i f out in_buf ≡ fault
    unfolding decrypt_blocks
    decrypt_blocks-fault zero i f out in_buf le short = absurd (omega arith)
    decrypt_blocks-fault (suc n) i f out in_buf le short = elim (dec_lt (length in_buf) (i + 16)) [
      | yes past ↦ rw (copy_out-past in_buf i 16 past) refl
      | no there ↦
          let c = v.loadu (take 16 (drop i in_buf)) in
          let p = v.sub_epi64 (decipher v (load_key v k0 k1) c) f in
          rw (copy_out-inside in_buf i 16 (omega arith)) (
            rw (ecb_decrypt_lem v d k0 k1 c) (elim (dec_lt (length out) (i + length (v.storeu p))) [
              | yes full ↦ rw (copy_in-past out i (v.storeu p) full) refl
              | no room ↦ rw (copy_in-inside out i (v.storeu p) (omega arith)) (
                  decrypt_blocks-fault n (i + 16) p (splice out i (v.storeu p)) in_buf (omega arith)
                    (omega arith))
            ]))
    ]

    -- `decrypt` of fewer bytes than a block has is undefined: the size wraps around below zero.
    pub decrypt-fault :
        (f : Block v.Word) (out in_buf : Bytes) (size : ℕ)
        → 0 < size
        → size < 16
        → length in_buf < 2 ^ 63
        → decrypt v (record { expanded_key = load_key v k0 k1; feedback = f }) out in_buf size
          ≡ fault
    unfolding decrypt
    decrypt-fault f out in_buf size pos small memory =
        let part : (size % 16 == 0) ≡ false = ground arith in
        rw part (
          rw
            (decrypt_blocks-fault (sub64 size (16 + size % 16) / 16) 0 f out in_buf (omega arith)
              (omega arith))
            refl)
