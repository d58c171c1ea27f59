-- ===== src/Cipher/Schedule/Standard.antt =====
-- The key expansion of the standard (FIPS 197), and that `AES_KEY_256_LOAD` computes it.
use udp_stuff.Base.{
  ℕ, zero, suc, ◌+◌, ◌/◌, ◌%◌, ◌^◌, ◌-◌, ◌*◌, arith, true, false, ◌==◌, if◌then◌else◌, List, [],
  ◌∷◌, ◌≡◌, refl, ap, sym, ◌∙◌,
}
use udp_stuff.Cipher.Vectors.{Block, Vectors, Documented, keygenassist}
use udp_stuff.Cipher.Schedule.{assist_1, assist_2, load_key}

module _ (v : Vectors) where
  -- `temp` of the standard, for the word at `i` whose predecessor is `x`
  unfoldable pub key_step : ℕ → v.Word → v.Word
  key_step i x =
      if i % 8 == 0
      then v.xor_word (v.sub_word (v.rot_word x)) (v.round_constant (2 ^ (i / 8 - 1)))
      else if i % 8 == 4
      then v.sub_word x
      else x

  -- The next word from the eight words before it, the last one first
  unfoldable pub next_word : ℕ → List v.Word → v.Word
  next_word i (x1 ∷ x2 ∷ x3 ∷ x4 ∷ x5 ∷ x6 ∷ x7 ∷ x8 ∷ xs) = v.xor_word x8 (key_step i x1)
  next_word i xs = v.zero_word

  -- `n` more words behind `i` words, the last one first
  unfoldable pub expand : ℕ → ℕ → List v.Word → List v.Word
  unfolding next_word
  expand zero i ws = ws
  expand (suc n) i ws = expand n (suc i) (next_word i ws ∷ ws)

  -- The words of blocks, the last one first, in front of others
  unfoldable pub behind : List v.Word → List (Block v.Word) → List v.Word
  behind ws [] = ws
  behind ws (b ∷ bs) = behind (b.w3 ∷ b.w2 ∷ b.w1 ∷ b.w0 ∷ ws) bs

  -- Four words in a chain, each of them added to the one before it
  abbrev chain : Block v.Word → v.Word → Block v.Word
  chain a k =
      let x0 = v.xor_word a.w0 k in
      let x1 = v.xor_word a.w1 x0 in
      let x2 = v.xor_word a.w2 x1 in record { w0 = x0; w1 = x1; w2 = x2; w3 = v.xor_word a.w3 x2 }

  module _ (d : Documented v) where
    xor_chain :
        (a b c e k : v.Word)
        → v.xor_word (v.xor_word (v.xor_word (v.xor_word a b) c) e) k
          ≡ v.xor_word a (v.xor_word b (v.xor_word c (v.xor_word e k)))
    xor_chain a b c e k = d.xor_assoc _ e k ∙ d.xor_assoc _ c _ ∙ d.xor_assoc a b _

    -- The three shifts and four sums of a step are a chain.
    chained :
        (a : Block v.Word) (k : v.Word)
        → ◌≡◌ {A = Block v.Word}
            (record {
              w0 =
                  v.xor_word
                    (v.xor_word (v.xor_word (v.xor_word a.w0 v.zero_word) v.zero_word) v.zero_word)
                    k;
              w1 =
                  v.xor_word
                    (v.xor_word (v.xor_word (v.xor_word a.w1 a.w0) v.zero_word) v.zero_word)
                    k;
              w2 = v.xor_word (v.xor_word (v.xor_word (v.xor_word a.w2 a.w1) a.w0) v.zero_word) k;
              w3 = v.xor_word (v.xor_word (v.xor_word (v.xor_word a.w3 a.w2) a.w1) a.w0) k;
            })
            (chain a k)
    chained a k = λ i. record {
      w0 = ap (λ t. v.xor_word t k) (d.xor-zero _ ∙ d.xor-zero _ ∙ d.xor-zero a.w0) i;
      w1 = (ap (λ t. v.xor_word t k) (d.xor-zero _ ∙ d.xor-zero _) ∙ d.xor_assoc a.w1 a.w0 k) i;
      w2 =
          (ap (λ t. v.xor_word t k) (d.xor-zero _)
              ∙ (d.xor_assoc _ a.w0 k ∙ d.xor_assoc a.w2 a.w1 _))
            i;
      w3 = xor_chain a.w3 a.w2 a.w1 a.w0 k i;
    }

    assist_1_lem : (a k : Block v.Word) → assist_1 v a k ≡ chain a k.w3
    unfolding assist_1
    assist_1_lem a k = chained a k.w3

    assist_2_lem : (a b : Block v.Word) → assist_2 v a b ≡ chain b (v.sub_word a.w3)
    unfolding assist_2
    assist_2_lem a b = chained b (v.sub_word a.w3)

    key_step-first :
        (r : ℕ) (x : v.Word)
        → key_step (8 * suc r) x ≡ v.xor_word (v.rot_word (v.sub_word x)) (v.round_constant (2 ^ r))
    unfolding key_step
    key_step-first r x =
        let yes0 : (8 * suc r % 8 == 0) ≡ true = ground arith in
        let round : 8 * suc r / 8 - 1 ≡ r = omega arith in
        rw yes0 (rw round (rw (d.rot-sub x) refl))

    key_step-fourth :
        (r : ℕ) (x : v.Word) → key_step (suc (suc (suc (suc (8 * suc r))))) x ≡ v.sub_word x
    unfolding key_step
    key_step-fourth r x =
        let no0 : (suc (suc (suc (suc (8 * suc r)))) % 8 == 0) ≡ false = ground arith in
        let yes4 : (suc (suc (suc (suc (8 * suc r)))) % 8 == 4) ≡ true = ground arith in
        rw no0 (rw yes4 refl)

    key_step-other : (i : ℕ) (x : v.Word) → (i % 8 ≡ 0 → ⊥) → (i % 8 ≡ 4 → ⊥) → key_step i x ≡ x
    unfolding key_step
    key_step-other i x a b =
        let no0 : (i % 8 == 0) ≡ false = ground arith in
        let no4 : (i % 8 == 4) ≡ false = ground arith in rw no0 (rw no4 refl)

  -- The next four words, the last one first
  abbrev four_words : ℕ → List v.Word → List v.Word
  four_words i ws =
      let ws1 = next_word i ws ∷ ws in
      let ws2 = next_word (suc i) ws1 ∷ ws1 in
      let ws3 = next_word (suc (suc i)) ws2 ∷ ws2 in next_word (suc (suc (suc i))) ws3 ∷ ws3

  module _ (d : Documented v) where
    -- Of four words, the first is added to `temp`, and the others to the word before.
    half :
        (i : ℕ) (ws : List v.Word) (a b : Block v.Word) (k : v.Word)
        → (i % 4 ≡ 0)
        → key_step i b.w3 ≡ k
        → four_words i (behind ws (a ∷ b ∷ [])) ≡ behind ws (a ∷ b ∷ chain a k ∷ [])
    unfolding next_word behind
    half i ws a b k aligned step = rw step (
        rw (key_step-other d (suc i) _ (λ e. omega arith) (λ e. omega arith)) (
          rw (key_step-other d (suc (suc i)) _ (λ e. omega arith) (λ e. omega arith)) (
            rw (key_step-other d (suc (suc (suc i))) _ (λ e. omega arith) (λ e. omega arith))
              refl)))

    expand_four :
        (m n i j : ℕ) (ws : List v.Word)
        → m ≡ suc (suc (suc (suc n)))
        → j ≡ suc (suc (suc (suc i)))
        → expand m i ws ≡ expand n j (four_words i ws)
    unfolding expand
    expand_four m n i j ws em ej = rw em (rw ej refl)

    -- Two more keys are eight more words.
    two_keys :
        (m n r : ℕ) (ws : List v.Word) (k0 k1 k2 k3 : Block v.Word)
        → m ≡ 8 + n
        → k2 ≡ assist_1 v k0 (keygenassist v k1 (2 ^ r))
        → k3 ≡ assist_2 v k2 k1
        → expand m (8 * suc r) (behind ws (k0 ∷ k1 ∷ []))
          ≡ expand n (8 * suc (suc r)) (behind ws (k0 ∷ k1 ∷ k2 ∷ k3 ∷ []))
    unfolding behind
    two_keys m n r ws k0 k1 k2 k3 em e2 e3 =
        let i = 8 * suc r in
        let c2 = e2 ∙ assist_1_lem d k0 (keygenassist v k1 (2 ^ r)) in
        let c3 = e3 ∙ assist_2_lem d k2 k1 in
        let fourth : key_step (4 + i) k2.w3 ≡ v.sub_word k2.w3 =
          ap (λ j. key_step j k2.w3) {x = 4 + i} {y = suc (suc (suc (suc i)))} (omega arith)
          ∙ key_step-fourth d r k2.w3 in
        expand_four m (4 + n) i (4 + i) _ (omega arith) (omega arith)
        ∙ ap (expand (4 + n) (4 + i)) (half i ws k0 k1 _ (omega arith) (key_step-first d r k1.w3))
        ∙ ap (λ b. expand (4 + n) (4 + i) (behind ws (k0 ∷ k1 ∷ b ∷ []))) (sym c2)
        ∙ expand_four (4 + n) n (4 + i) (8 * suc (suc r)) _ (omega arith) (omega arith)
        ∙ ap (expand n (8 * suc (suc r)))
            (half (4 + i) (k0.w3 ∷ k0.w2 ∷ k0.w1 ∷ k0.w0 ∷ ws) k1 k2 _ (omega arith) fourth)
        ∙ ap (λ b. expand n (8 * suc (suc r)) (behind ws (k0 ∷ k1 ∷ k2 ∷ b ∷ []))) (sym c3)

    -- The last key is four more words.
    last_key :
        (r : ℕ) (ws : List v.Word) (k0 k1 k2 : Block v.Word)
        → k2 ≡ assist_1 v k0 (keygenassist v k1 (2 ^ r))
        → expand 4 (8 * suc r) (behind ws (k0 ∷ k1 ∷ [])) ≡ behind ws (k0 ∷ k1 ∷ k2 ∷ [])
    unfolding expand
    last_key r ws k0 k1 k2 e2 =
        half (8 * suc r) ws k0 k1 _ (omega arith) (key_step-first d r k1.w3)
        ∙ ap (λ b. behind ws (k0 ∷ k1 ∷ b ∷ []))
            (sym (e2 ∙ assist_1_lem d k0 (keygenassist v k1 (2 ^ r))))

    -- The keys behind two keys: `n` pairs and the last one
    keys : ℕ → ℕ → Block v.Word → Block v.Word → List (Block v.Word)
    keys zero r k0 k1 = assist_1 v k0 (keygenassist v k1 (2 ^ r)) ∷ []
    keys (suc n) r k0 k1 =
        let k2 = assist_1 v k0 (keygenassist v k1 (2 ^ r)) in
        let k3 = assist_2 v k2 k1 in k2 ∷ k3 ∷ keys n (suc r) k2 k3

    keys_lem :
        (n r : ℕ) (ws : List v.Word) (k0 k1 : Block v.Word)
        → expand (8 * n + 4) (8 * suc r) (behind ws (k0 ∷ k1 ∷ []))
          ≡ behind ws (k0 ∷ k1 ∷ keys n r k0 k1)
    unfolding keys behind
    keys_lem zero r ws k0 k1 =
        ap (λ m. expand m (8 * suc r) (behind ws (k0 ∷ k1 ∷ []))) {x = 8 * 0 + 4} {y = 4}
          (omega arith)
        ∙ last_key r ws k0 k1 _ refl
    keys_lem (suc n) r ws k0 k1 =
        let k2 = assist_1 v k0 (keygenassist v k1 (2 ^ r)) in
        two_keys (8 * suc n + 4) (8 * n + 4) r ws k0 k1 k2 (assist_2 v k2 k1) (omega arith) refl
          refl
        ∙ keys_lem n (suc r) (k1.w3 ∷ k1.w2 ∷ k1.w1 ∷ k1.w0 ∷ k0.w3 ∷ k0.w2 ∷ k0.w1 ∷ k0.w0 ∷ ws) k2
            (assist_2 v k2 k1)

    load_key-keys : (k0 k1 : Block v.Word) → load_key v k0 k1 ≡ k0 ∷ k1 ∷ keys 6 0 k0 k1
    unfolding load_key keys
    load_key-keys k0 k1 = refl

    -- `AES_KEY_256_LOAD` stores the words of the standard's key expansion, in order.
    pub load_key_lem :
        (k0 k1 : Block v.Word)
        → behind [] (load_key v k0 k1) ≡ expand 52 8 (behind [] (k0 ∷ k1 ∷ []))
    load_key_lem k0 k1 = ap (behind []) (load_key-keys k0 k1) ∙ sym (keys_lem 6 0 [] k0 k1)
