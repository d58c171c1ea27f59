-- ===== src/Cipher/Sum.antt =====
-- crypto/block.h, `AES_ECB_encrypt`, `AES_ECB_decrypt` and the class AES256SUM128Crypt. `in` and
-- `out` are two buffers that do not overlap.
pub mod Blocks
pub mod Decrypt
use udp_stuff.Base.{
  copy_in, copy_out, ℕ, zero, suc, ◌+◌, ◌-◌, ◌*◌, ◌/◌, ◌%◌, ◌^◌, ltb, leb, ◌==◌, if◌then◌else◌,
  List, [], ◌∷◌, ◌++◌, Bytes, length, take, drop, replicate, get_elem?, Option, some, none, Outcome,
  done, fault, ◌>>=◌, sub64,
}
use udp_stuff.Cipher.Vectors.{Block, Vectors, xor_si128}
use udp_stuff.Cipher.Schedule.{load_key}

abbrev pub block_size : ℕ
block_size = 16

abbrev pub at_key {ℓ} : {A : Type ℓ} → Option A → Outcome A
at_key (some k) = done k
at_key none = fault

module _ (v : Vectors) where
  pub record Crypt : Type 0 where
    pub expanded_key : List (Block v.Word)
    pub feedback : Block v.Word

  -- The loop over the rounds: `n` of them are left, and round `j` is next.
  unfoldable pub rounds :
      (Block v.Word → Block v.Word → Block v.Word)
      → List (Block v.Word)
      → ℕ
      → ℕ
      → Block v.Word
      → Outcome (Block v.Word)
  rounds step keys zero j tmp = done tmp
  rounds step keys (suc n) j tmp =
      at_key (get_elem? keys j) >>= λ k. rounds step keys n (suc j) (step tmp k)

  unfoldable pub ecb_encrypt : Block v.Word → List (Block v.Word) → ℕ → Outcome (Block v.Word)
  ecb_encrypt block keys nrounds = do
    k0 ← at_key (get_elem? keys 0)
    tmp ← rounds v.aesenc keys (nrounds - 1) 1 (xor_si128 v block k0)
    k ← at_key (get_elem? keys (1 + (nrounds - 1)))
    done (v.aesenclast tmp k)

  unfoldable pub ecb_decrypt : Block v.Word → List (Block v.Word) → ℕ → Outcome (Block v.Word)
  ecb_decrypt block keys nrounds = do
    k0 ← at_key (get_elem? keys 0)
    tmp ← rounds v.aesdec keys (nrounds - 1) 1 (xor_si128 v block k0)
    k ← at_key (get_elem? keys (1 + (nrounds - 1)))
    done (v.aesdeclast tmp k)

  abbrev pub load : Bytes → ℕ → Outcome (Block v.Word)
  load buf offset = copy_out buf offset block_size >>= λ bytes. done (v.loadu bytes)

  abbrev pub store : Bytes → ℕ → Block v.Word → Outcome Bytes
  store buf offset b = copy_in buf offset (v.storeu b)

  module _ (keys : List (Block v.Word)) where
    -- The loops over the whole blocks: `n` of them are left, and the next is at `i`.
    unfoldable pub encrypt_blocks :
        ℕ → ℕ → Block v.Word → Bytes → Bytes → Outcome (Block v.Word × Bytes)
    encrypt_blocks zero i feedback out in_buf = done (feedback, out)
    encrypt_blocks (suc n) i feedback out in_buf = do
      tmp ← load in_buf i
      c ← ecb_encrypt (v.add_epi64 feedback tmp) keys 14
      out' ← store out i c
      encrypt_blocks n (i + block_size) (v.add_epi64 feedback tmp) out' in_buf

    unfoldable pub decrypt_blocks :
        ℕ → ℕ → Block v.Word → Bytes → Bytes → Outcome (Block v.Word × Bytes)
    decrypt_blocks zero i feedback out in_buf = done (feedback, out)
    decrypt_blocks (suc n) i feedback out in_buf = do
      c ← load in_buf i
      tmp ← ecb_decrypt c keys 14
      out' ← store out i (v.sub_epi64 tmp feedback)
      decrypt_blocks n (i + block_size) (v.sub_epi64 tmp feedback) out' in_buf

    -- A part of a block, with zeros behind it
    abbrev pub load_part : Bytes → ℕ → ℕ → Outcome (Block v.Word)
    load_part buf offset n =
        copy_out buf offset n >>= λ bytes. done (v.loadu (bytes ++ replicate (block_size - n) 0))

    -- The tail of `encrypt`: `tail` bytes behind `size` whole ones. It works in `in`.
    unfoldable pub encrypt_tail : ℕ → ℕ → Block v.Word → Bytes → Outcome (Block v.Word × Bytes)
    encrypt_tail size tail feedback in_buf =
        if ltb (size + tail) block_size
        then fault
        else (load_part in_buf size tail >>= λ part.
            copy_in in_buf size (take tail (v.storeu (v.add_epi64 feedback part))) >>= λ in'.
            load in' (size + tail - block_size) >>= λ tmp. ecb_encrypt tmp keys 14 >>= λ c.
            store in' (size + tail - block_size) c >>= λ in''.
            done (v.add_epi64 feedback part, in''))

    -- The tail of `decrypt`: `tail` is more than a block.
    unfoldable pub decrypt_tail : ℕ → ℕ → Block v.Word → Bytes → Outcome (Block v.Word × Bytes)
    decrypt_tail size tail feedback in_buf = do
      c2 ← load in_buf (size + tail - block_size)
      tmp2 ← ecb_decrypt c2 keys 14
      in' ← store in_buf (size + tail - block_size) tmp2
      c1 ← load in' size
      tmp1 ← ecb_decrypt c1 keys 14
      in'' ← store in' size (v.sub_epi64 tmp1 feedback)
      part ← load_part in'' (size + block_size) (tail - block_size)
      in''' ←
          copy_in in'' (size + block_size)
            (take (tail - block_size) (v.storeu (v.sub_epi64 part (v.sub_epi64 tmp1 feedback))))
      done (v.sub_epi64 part (v.sub_epi64 tmp1 feedback), in''')

  unfoldable pub load_key_256 : Crypt → Block v.Word → Block v.Word → Crypt
  load_key_256 s k0 k1 = record { expanded_key = load_key v k0 k1; feedback = s.feedback }

  -- `out`, `in` and the new state
  unfoldable pub encrypt : Crypt → Bytes → Bytes → ℕ → Outcome (Bytes × Bytes × Crypt)
  unfolding encrypt_blocks encrypt_tail ecb_encrypt
  encrypt s out in_buf size = do
    (feedback, out') ← encrypt_blocks s.expanded_key (size / block_size) 0 s.feedback out in_buf
    (feedback', in') ←
        (if size % block_size == 0
          then done (feedback, in_buf)
          else encrypt_tail s.expanded_key (size - size % block_size) (size % block_size) feedback
              in_buf)
    done (out', in', record { expanded_key = s.expanded_key; feedback = feedback' })

  -- What is left of the size without the tail; below one block it wraps around.
  abbrev pub tail_size : ℕ → ℕ
  tail_size size = if size % block_size == 0 then 0 else block_size + size % block_size

  unfoldable pub decrypt : Crypt → Bytes → Bytes → ℕ → Outcome (Bytes × Bytes × Crypt)
  unfolding decrypt_blocks decrypt_tail ecb_decrypt
  decrypt s out in_buf size = do
    let whole = sub64 size (tail_size size)
    (feedback, out') ← decrypt_blocks s.expanded_key (whole / block_size) 0 s.feedback out in_buf
    (feedback', in') ←
        (if size % block_size == 0
          then done (feedback, in_buf)
          else decrypt_tail s.expanded_key whole (tail_size size) feedback in_buf)
    done (out', in', record { expanded_key = s.expanded_key; feedback = feedback' })

  unfoldable pub get_checksum : Crypt → Bytes → Outcome Bytes
  unfolding ecb_decrypt
  get_checksum s out = ecb_decrypt s.feedback s.expanded_key 14 >>= λ tmp. store out 0 tmp
