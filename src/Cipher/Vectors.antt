-- ===== src/Cipher/Vectors.antt =====
-- The vector instructions that crypto/block.h calls. What they do to a word or a block is a
-- parameter; how they move words is written out.
use udp_stuff.Base.{ℕ, ◌≡◌, Bytes, length}

-- `__m128i` as four words of 32 bits, the lowest first
pub record Block (Word : Type 0) : Type 0 where
  pub w0 : Word
  pub w1 : Word
  pub w2 : Word
  pub w3 : Word

pub record Vectors : Type 1 where
  pub Word : Type 0
  pub xor_word : Word → Word → Word
  pub zero_word : Word
  pub sub_word : Word → Word
  pub rot_word : Word → Word
  pub round_constant : ℕ → Word
  pub aesenc : Block Word → Block Word → Block Word
  pub aesenclast : Block Word → Block Word → Block Word
  pub aesdec : Block Word → Block Word → Block Word
  pub aesdeclast : Block Word → Block Word → Block Word
  pub add_epi64 : Block Word → Block Word → Block Word
  pub sub_epi64 : Block Word → Block Word → Block Word
  pub loadu : Bytes → Block Word
  pub storeu : Block Word → Bytes

-- What is documented of them, as far as the code relies on it.
pub record Documented (v : Vectors) : Type 0 where
  pub xor_assoc : (a b c : v.Word) → v.xor_word (v.xor_word a b) c ≡ v.xor_word a (v.xor_word b c)
  pub xor-zero : (a : v.Word) → v.xor_word a v.zero_word ≡ a
  pub rot-sub : (a : v.Word) → v.rot_word (v.sub_word a) ≡ v.sub_word (v.rot_word a)
  pub sub-add : (a b : Block v.Word) → v.sub_epi64 (v.add_epi64 a b) a ≡ b
  pub add_assoc :
      (a b c : Block v.Word) → v.add_epi64 (v.add_epi64 a b) c ≡ v.add_epi64 a (v.add_epi64 b c)
  pub add_comm : (a b : Block v.Word) → v.add_epi64 a b ≡ v.add_epi64 b a
  pub length-storeu : (a : Block v.Word) → length (v.storeu a) ≡ 16
  pub loadu-storeu : (a : Block v.Word) → v.loadu (v.storeu a) ≡ a

module _ (v : Vectors) where
  abbrev pub xor_si128 : Block v.Word → Block v.Word → Block v.Word
  xor_si128 a b = record {
    w0 = v.xor_word a.w0 b.w0;
    w1 = v.xor_word a.w1 b.w1;
    w2 = v.xor_word a.w2 b.w2;
    w3 = v.xor_word a.w3 b.w3;
  }

  -- `_mm_slli_si128(a, 4)`
  abbrev pub slli_si128_4 : Block v.Word → Block v.Word
  slli_si128_4 a = record { w0 = v.zero_word; w1 = a.w0; w2 = a.w1; w3 = a.w2 }

  -- `_mm_shuffle_epi32` with 0xff and with 0xaa
  abbrev pub shuffle_ff : Block v.Word → Block v.Word
  shuffle_ff a = record { w0 = a.w3; w1 = a.w3; w2 = a.w3; w3 = a.w3 }

  abbrev pub shuffle_aa : Block v.Word → Block v.Word
  shuffle_aa a = record { w0 = a.w2; w1 = a.w2; w2 = a.w2; w3 = a.w2 }

  abbrev pub keygenassist : Block v.Word → ℕ → Block v.Word
  keygenassist a rcon = record {
    w0 = v.sub_word a.w1;
    w1 = v.xor_word (v.rot_word (v.sub_word a.w1)) (v.round_constant rcon);
    w2 = v.sub_word a.w3;
    w3 = v.xor_word (v.rot_word (v.sub_word a.w3)) (v.round_constant rcon);
  }
