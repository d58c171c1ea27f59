-- ===== src/Cipher/Sum/Blocks.antt =====
-- `encrypt` and `decrypt` on whole blocks, as functions on lists of blocks.
use udp_stuff.Base.{
  ℕ, zero, suc, ◌+◌, ◌*◌, ◌≤◌, ◌≡◌, refl, ap, sym, ◌∙◌, arith, List, [], ◌∷◌, ◌++◌, Bytes, length,
  take, drop, ◌/◌, ◌%◌, ◌==◌, true, done,
}
use udp_stuff.Cipher.Vectors.{Block, Vectors, Documented, xor_si128}
use udp_stuff.Cipher.Schedule.{load_key}
use udp_stuff.Cipher.Sum.{rounds, ecb_encrypt, ecb_decrypt, encrypt_blocks, decrypt_blocks, encrypt}
use udp_stuff.Base.{
  splice, copy_in-inside, copy_out-inside, length-splice, splice-splice, splice-none,
}

module _ (v : Vectors) where
  -- The cipher of the standard with a list of round keys, for a step and a last step
  unfoldable pub cipher_from :
      (Block v.Word → Block v.Word → Block v.Word)
      → (Block v.Word → Block v.Word → Block v.Word)
      → List (Block v.Word)
      → Block v.Word
      → Block v.Word
  cipher_from step last [] b = b
  cipher_from step last (k ∷ []) b = last b k
  cipher_from step last (k ∷ k' ∷ ks) b = cipher_from step last (k' ∷ ks) (step b k)

  unfoldable pub cipher : List (Block v.Word) → Block v.Word → Block v.Word
  unfolding cipher_from
  cipher [] b = b
  cipher (k ∷ ks) b = cipher_from v.aesenc v.aesenclast ks (xor_si128 v b k)

  unfoldable pub decipher : List (Block v.Word) → Block v.Word → Block v.Word
  unfolding cipher_from
  decipher [] b = b
  decipher (k ∷ ks) b = cipher_from v.aesdec v.aesdeclast ks (xor_si128 v b k)

  -- The blocks that a buffer holds from `i` on
  unfoldable pub blocks : ℕ → ℕ → Bytes → List (Block v.Word)
  blocks zero i buf = []
  blocks (suc n) i buf = v.loadu (take 16 (drop i buf)) ∷ blocks n (i + 16) buf

  unfoldable pub bytes_of : List (Block v.Word) → Bytes
  bytes_of [] = []
  bytes_of (b ∷ bs) = v.storeu b ++ bytes_of bs

  -- The sums that are encrypted: each block is added to those before it.
  unfoldable pub sums : Block v.Word → List (Block v.Word) → List (Block v.Word)
  sums f [] = []
  sums f (p ∷ ps) = v.add_epi64 f p ∷ sums (v.add_epi64 f p) ps

  unfoldable pub sum : Block v.Word → List (Block v.Word) → Block v.Word
  sum f [] = f
  sum f (p ∷ ps) = sum (v.add_epi64 f p) ps

  unfoldable pub map_cipher : List (Block v.Word) → List (Block v.Word) → List (Block v.Word)
  map_cipher keys [] = []
  map_cipher keys (p ∷ ps) = cipher keys p ∷ map_cipher keys ps

  -- What `decrypt` puts out: it takes the block before from what it deciphered.
  unfoldable pub differences :
      List (Block v.Word) → Block v.Word → List (Block v.Word) → List (Block v.Word)
  differences keys f [] = []
  differences keys f (c ∷ cs) =
      v.sub_epi64 (decipher keys c) f ∷ differences keys (v.sub_epi64 (decipher keys c) f) cs

  unfoldable pub last_difference :
      List (Block v.Word) → Block v.Word → List (Block v.Word) → Block v.Word
  last_difference keys f [] = f
  last_difference keys f (c ∷ cs) = last_difference keys (v.sub_epi64 (decipher keys c) f) cs

  module _ (d : Documented v) (k0 k1 : Block v.Word) where
    ecb_encrypt_lem :
        (b : Block v.Word)
        → ecb_encrypt v b (load_key v k0 k1) 14 ≡ done (cipher (load_key v k0 k1) b)
    unfolding ecb_encrypt rounds load_key cipher cipher_from
    ecb_encrypt_lem b = refl

    pub ecb_decrypt_lem :
        (b : Block v.Word)
        → ecb_decrypt v b (load_key v k0 k1) 14 ≡ done (decipher (load_key v k0 k1) b)
    unfolding ecb_decrypt rounds load_key decipher cipher_from
    ecb_decrypt_lem b = refl

    encrypt_blocks_lem :
        (n i : ℕ) (f : Block v.Word) (out in_buf : Bytes)
        → i + 16 * n ≤ length in_buf
        → i + 16 * n ≤ length out
        → encrypt_blocks v (load_key v k0 k1) n i f out in_buf
          ≡ done (
            sum f (blocks n i in_buf),
            take i out
                ++ (bytes_of (map_cipher (load_key v k0 k1) (sums f (blocks n i in_buf)))
                    ++ drop (i + 16 * n) out),
          )
    unfolding encrypt_blocks sum sums blocks bytes_of map_cipher
    encrypt_blocks_lem zero i f out in_buf hi ho =
        ap (λ t. done (f, t)) (sym (splice-none out i (i + 16 * 0) (omega arith)))
    encrypt_blocks_lem (suc n) i f out in_buf hi ho =
        let p = v.loadu (take 16 (drop i in_buf)) in
        let c = cipher (load_key v k0 k1) (v.add_epi64 f p) in
        let room : i + length (v.storeu c) ≤ length out = omega (arith, d.length-storeu c) in
        rw (copy_out-inside in_buf i 16 (omega arith)) (
          rw (ecb_encrypt_lem (v.add_epi64 f p)) (
            rw (copy_in-inside out i (v.storeu c) room) (
              encrypt_blocks_lem n (i + 16) (v.add_epi64 f p) (splice out i (v.storeu c)) in_buf
                (omega arith) (omega (arith, length-splice out i (v.storeu c) room))
              ∙ ap (λ t. done (sum (v.add_epi64 f p) (blocks n (i + 16) in_buf), t))
                  (splice-splice out i (i + 16) (16 * n) (i + 16 * suc n) (v.storeu c) _
                    (omega arith) (omega (arith, d.length-storeu c))
                    (omega (arith, d.length-storeu c))))))

    -- What `decrypt` puts out for a list of blocks, and the feedback it ends with
    pub decrypt_blocks_lem :
        (n i : ℕ) (f : Block v.Word) (out in_buf : Bytes)
        → i + 16 * n ≤ length in_buf
        → i + 16 * n ≤ length out
        → decrypt_blocks v (load_key v k0 k1) n i f out in_buf
          ≡ done (
            last_difference (load_key v k0 k1) f (blocks n i in_buf),
            take i out
                ++ (bytes_of (differences (load_key v k0 k1) f (blocks n i in_buf))
                    ++ drop (i + 16 * n) out),
          )
    unfolding decrypt_blocks differences last_difference blocks bytes_of
    decrypt_blocks_lem zero i f out in_buf hi ho =
        ap (λ t. done (f, t)) (sym (splice-none out i (i + 16 * 0) (omega arith)))
    decrypt_blocks_lem (suc n) i f out in_buf hi ho =
        let c = v.loadu (take 16 (drop i in_buf)) in
        let p = v.sub_epi64 (decipher (load_key v k0 k1) c) f in
        let room : i + length (v.storeu p) ≤ length out = omega (arith, d.length-storeu p) in
        rw (copy_out-inside in_buf i 16 (omega arith)) (
          rw (ecb_decrypt_lem c) (
            rw (copy_in-inside out i (v.storeu p) room) (
              decrypt_blocks_lem n (i + 16) p (splice out i (v.storeu p)) in_buf (omega arith)
                (omega (arith, length-splice out i (v.storeu p) room))
              ∙ ap (λ t. done (last_difference (load_key v k0 k1) p (blocks n (i + 16) in_buf), t))
                  (splice-splice out i (i + 16) (16 * n) (i + 16 * suc n) (v.storeu p) _
                    (omega arith) (omega (arith, d.length-storeu p))
                    (omega (arith, d.length-storeu p))))))

    -- `encrypt` of whole blocks: every block is the cipher of the sum of the blocks so far and the
    -- feedback, the bytes behind them stay, and the feedback ends as the sum of all.
    pub encrypt_lem :
        (f : Block v.Word) (out in_buf : Bytes) (n : ℕ)
        → 16 * n ≤ length in_buf
        → 16 * n ≤ length out
        → encrypt v (record { expanded_key = load_key v k0 k1; feedback = f }) out in_buf (16 * n)
          ≡ done (
            bytes_of (map_cipher (load_key v k0 k1) (sums f (blocks n 0 in_buf)))
                ++ drop (16 * n) out,
            in_buf,
            record { expanded_key = load_key v k0 k1; feedback = sum f (blocks n 0 in_buf) },
          )
    unfolding encrypt
    encrypt_lem f out in_buf n hi ho =
        let whole : (16 * n % 16 == 0) ≡ true = ground arith in
        rw (ap (λ (t : ℕ). t) {x = 16 * n / 16} {y = n} (omega arith)) (
          rw (encrypt_blocks_lem n 0 f out in_buf (omega arith) (omega arith)) (
            rw whole (
              ap
                (λ t. done (
                  bytes_of (map_cipher (load_key v k0 k1) (sums f (blocks n 0 in_buf)))
                      ++ drop t out,
                  in_buf,
                  record { expanded_key = load_key v k0 k1; feedback = sum f (blocks n 0 in_buf) },
                ))
                {x = 0 + 16 * n} (omega arith))))
