-- ===== src/Cipher/Tests.antt =====
-- The theorems on crypto/block.h at words of one bit, where the sum of blocks is the exclusive or.
use mathlib.Core.Bool.{Bool, true, false, not}
use udp_stuff.Base.{ℕ, ◌≡◌, refl, arith, [], ◌∷◌, ◌++◌, Bytes, ◌==◌, replicate, done}
use udp_stuff.Cipher.Vectors.{Block, Vectors, Documented}
use udp_stuff.Cipher.Schedule.{load_key, assist_1, assist_2}
use udp_stuff.Cipher.Schedule.Standard.{behind, expand, load_key_lem}
use udp_stuff.Cipher.Sum.{encrypt}
use udp_stuff.Cipher.Sum.Blocks.{
  cipher, decipher, cipher_from, bytes_of, map_cipher, sums, sum, blocks, encrypt_lem,
}

abbrev xor : Bool → Bool → Bool
xor true b = not b
xor false b = b

abbrev xor_blocks : Block Bool → Block Bool → Block Bool
xor_blocks a b = record {
  w0 = xor a.w0 b.w0;
  w1 = xor a.w1 b.w1;
  w2 = xor a.w2 b.w2;
  w3 = xor a.w3 b.w3;
}

abbrev bit : Bool → ℕ
bit true = 1
bit false = 0

abbrev block_of : Bytes → Block Bool
block_of (a ∷ b ∷ c ∷ e ∷ rest) = record { w0 = a == 1; w1 = b == 1; w2 = c == 1; w3 = e == 1 }
block_of rest = record { w0 = false; w1 = false; w2 = false; w3 = false }

abbrev bits : Vectors
bits = record {
  Word = Bool;
  xor_word = xor;
  zero_word = false;
  sub_word = not;
  rot_word = λ b. b;
  round_constant = λ n. n == 1;
  aesenc = xor_blocks;
  aesenclast = xor_blocks;
  aesdec = xor_blocks;
  aesdeclast = xor_blocks;
  add_epi64 = xor_blocks;
  sub_epi64 = xor_blocks;
  loadu = block_of;
  storeu = λ b. bit b.w0 ∷ bit b.w1 ∷ bit b.w2 ∷ bit b.w3 ∷ replicate 12 0;
}

xor_assoc : (a b c : Bool) → xor (xor a b) c ≡ xor a (xor b c)
xor_assoc true true true = refl
xor_assoc true true false = refl
xor_assoc true false c = refl
xor_assoc false b c = refl

xor_comm : (a b : Bool) → xor a b ≡ xor b a
xor_comm true true = refl
xor_comm true false = refl
xor_comm false true = refl
xor_comm false false = refl

xor-false : (a : Bool) → xor a false ≡ a
xor-false true = refl
xor-false false = refl

xor_twice : (a b : Bool) → xor (xor a b) a ≡ b
xor_twice true true = refl
xor_twice true false = refl
xor_twice false b = xor-false b

bit_one : (a : Bool) → (bit a == 1) ≡ a
bit_one true = refl
bit_one false = refl

bits-Documented : Documented bits
bits-Documented = record {
  xor_assoc = xor_assoc;
  xor-zero = xor-false;
  rot-sub = λ a. refl;
  sub-add = λ a b. λ i. record {
    w0 = xor_twice a.w0 b.w0 i;
    w1 = xor_twice a.w1 b.w1 i;
    w2 = xor_twice a.w2 b.w2 i;
    w3 = xor_twice a.w3 b.w3 i;
  };
  add_assoc = λ a b c. λ i. record {
    w0 = xor_assoc a.w0 b.w0 c.w0 i;
    w1 = xor_assoc a.w1 b.w1 c.w1 i;
    w2 = xor_assoc a.w2 b.w2 c.w2 i;
    w3 = xor_assoc a.w3 b.w3 c.w3 i;
  };
  add_comm = λ a b. λ i. record {
    w0 = xor_comm a.w0 b.w0 i;
    w1 = xor_comm a.w1 b.w1 i;
    w2 = xor_comm a.w2 b.w2 i;
    w3 = xor_comm a.w3 b.w3 i;
  };
  length-storeu = λ a. refl;
  loadu-storeu = λ a. λ i. record {
    w0 = bit_one a.w0 i;
    w1 = bit_one a.w1 i;
    w2 = bit_one a.w2 i;
    w3 = bit_one a.w3 i;
  };
}

abbrev block : Bool → Bool → Bool → Bool → Block Bool
block a b c e = record { w0 = a; w1 = b; w2 = c; w3 = e }

abbrev key_low : Block Bool
key_low = block true false true true

abbrev key_high : Block Bool
key_high = block false true true false

abbrev start : Block Bool
start = block true true false false

abbrev plain : Bytes
plain = 1 ∷ 0 ∷ 1 ∷ 0 ∷ replicate 12 0 ++ (1 ∷ 1 ∷ 1 ∷ 0 ∷ replicate 12 0)

load_key_lem_example :
    behind bits [] (load_key bits key_low key_high)
    ≡ expand bits 52 8 (behind bits [] (key_low ∷ key_high ∷ []))
load_key_lem_example = load_key_lem bits bits-Documented key_low key_high

encrypt_lem_example :
    encrypt bits
      (record { expanded_key = load_key bits key_low key_high; feedback = start })
      (replicate 40 7)
      plain
      32
    ≡ done (
      bytes_of bits (
            map_cipher bits
              (load_key bits key_low key_high)
              (sums bits start (blocks bits 2 0 plain)))
          ++ replicate 8 7,
      plain,
      record {
        expanded_key = load_key bits key_low key_high;
        feedback = sum bits start (blocks bits 2 0 plain);
      },
    )
encrypt_lem_example =
    encrypt_lem bits bits-Documented key_low key_high start (replicate 40 7) plain 2 (omega arith)
      (omega arith)

inverse_word :
    (x : Bool)
    → (decipher bits
        (load_key bits key_low key_high)
        (cipher bits (load_key bits key_low key_high) (block x x x x)))
      ≡ block x x x x
unfolding decipher cipher cipher_from load_key assist_1 assist_2
inverse_word true = refl
inverse_word false = refl

inverse :
    (b : Block Bool)
    → decipher bits
        (load_key bits key_low key_high)
        (cipher bits (load_key bits key_low key_high) b)
      ≡ b
unfolding decipher cipher cipher_from load_key assist_1 assist_2
inverse b = λ i. record {
  w0 = (inverse_word b.w0 i).w0;
  w1 = (inverse_word b.w1 i).w1;
  w2 = (inverse_word b.w2 i).w2;
  w3 = (inverse_word b.w3 i).w3;
}
