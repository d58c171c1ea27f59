-- ===== src/Cipher/Schedule.antt =====
-- crypto/block.h, `AES_KEY_256_ASSIST_1`, `AES_KEY_256_ASSIST_2` and `AES_KEY_256_LOAD`.
pub mod Standard
use udp_stuff.Base.{ℕ, List, [], ◌∷◌}
use udp_stuff.Cipher.Vectors.{
  Block, Vectors, xor_si128, slli_si128_4, shuffle_ff, shuffle_aa, keygenassist,
}

module _ (v : Vectors) where
  -- The new `*temp1`
  unfoldable pub assist_1 : Block v.Word → Block v.Word → Block v.Word
  assist_1 temp1 temp2 =
      let temp2' = shuffle_ff v temp2 in
      let a4 = slli_si128_4 v temp1 in
      let a1 = xor_si128 v temp1 a4 in
      let b4 = slli_si128_4 v a4 in
      let b1 = xor_si128 v a1 b4 in
      let c4 = slli_si128_4 v b4 in let c1 = xor_si128 v b1 c4 in xor_si128 v c1 temp2'

  -- The new `*temp3`
  unfoldable pub assist_2 : Block v.Word → Block v.Word → Block v.Word
  assist_2 temp1 temp3 =
      let temp4 = keygenassist v temp1 0 in
      let temp2 = shuffle_aa v temp4 in
      let a4 = slli_si128_4 v temp3 in
      let a3 = xor_si128 v temp3 a4 in
      let b4 = slli_si128_4 v a4 in
      let b3 = xor_si128 v a3 b4 in
      let c4 = slli_si128_4 v b4 in let c3 = xor_si128 v b3 c4 in xor_si128 v c3 temp2

  -- `expanded_key`
  unfoldable pub load_key : Block v.Word → Block v.Word → List (Block v.Word)
  load_key k0 k1 =
      let k2 = assist_1 k0 (keygenassist v k1 0x01) in
      let k3 = assist_2 k2 k1 in
      let k4 = assist_1 k2 (keygenassist v k3 0x02) in
      let k5 = assist_2 k4 k3 in
      let k6 = assist_1 k4 (keygenassist v k5 0x04) in
      let k7 = assist_2 k6 k5 in
      let k8 = assist_1 k6 (keygenassist v k7 0x08) in
      let k9 = assist_2 k8 k7 in
      let k10 = assist_1 k8 (keygenassist v k9 0x10) in
      let k11 = assist_2 k10 k9 in
      let k12 = assist_1 k10 (keygenassist v k11 0x20) in
      let k13 = assist_2 k12 k11 in
      let k14 = assist_1 k12 (keygenassist v k13 0x40) in
      k0 ∷ k1 ∷ k2 ∷ k3 ∷ k4 ∷ k5 ∷ k6 ∷ k7 ∷ k8 ∷ k9 ∷ k10 ∷ k11 ∷ k12 ∷ k13 ∷ k14 ∷ []
