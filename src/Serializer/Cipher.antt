-- ===== src/Serializer/Cipher.antt =====
-- The loops of `serializer::encryption` and `serializer::decryption` (serializer.h). A `char` is
-- its bit pattern: sums in `int` that are cut to a `char` are sums modulo 256.
use chatting_server_single.Common.{
  ℕ, suc, ◌+◌, ◌≡◌, refl, ap, ap₂, List, [], ◌∷◌, arith, u8, AllBytes, length, bit_xor,
  bit_xor_cancel, bit_xor-lt,
}

module _ (dynamic_key static_key : ℕ) where
  -- `pp` and `pe` are the last byte before the second mixing and the last byte written.
  unfoldable pub encrypt_bytes : ℕ → ℕ → ℕ → List ℕ → List ℕ
  encrypt_bytes i pp pe [] = []
  encrypt_bytes i pp pe (x ∷ xs) =
      let p = bit_xor x (u8 (pp + dynamic_key + 1 + i)) in
      let e = bit_xor p (u8 (pe + static_key + 1 + i)) in e ∷ encrypt_bytes (i + 1) p e xs

  pub decrypt_bytes : ℕ → ℕ → ℕ → List ℕ → List ℕ
  decrypt_bytes i pp pe [] = []
  decrypt_bytes i pp pe (e ∷ es) =
      let p = bit_xor e (u8 (pe + static_key + 1 + i)) in
      bit_xor p (u8 (pp + dynamic_key + 1 + i)) ∷ decrypt_bytes (i + 1) p e es

  -- With the same keys and the same state, decryption undoes encryption.
  pub decrypt_bytes-encrypt_bytes :
      (i pp pe : ℕ) (xs : List ℕ) → decrypt_bytes i pp pe (encrypt_bytes i pp pe xs) ≡ xs
  unfolding encrypt_bytes decrypt_bytes
  decrypt_bytes-encrypt_bytes i pp pe [] = refl
  decrypt_bytes-encrypt_bytes i pp pe (x ∷ xs) =
      let a = u8 (pp + dynamic_key + 1 + i) in
      let b = u8 (pe + static_key + 1 + i) in
      rw (bit_xor_cancel (bit_xor x a) b) (
        ap₂ ◌∷◌ (bit_xor_cancel x a)
          (decrypt_bytes-encrypt_bytes (i + 1) (bit_xor x a) (bit_xor (bit_xor x a) b) xs))

  pub encrypt_bytes-decrypt_bytes :
      (i pp pe : ℕ) (xs : List ℕ) → encrypt_bytes i pp pe (decrypt_bytes i pp pe xs) ≡ xs
  unfolding encrypt_bytes decrypt_bytes
  encrypt_bytes-decrypt_bytes i pp pe [] = refl
  encrypt_bytes-decrypt_bytes i pp pe (e ∷ es) =
      let a = u8 (pp + dynamic_key + 1 + i) in
      let b = u8 (pe + static_key + 1 + i) in
      rw (bit_xor_cancel (bit_xor e b) a, bit_xor_cancel e b)
        (ap (λ l. e ∷ l) (encrypt_bytes-decrypt_bytes (i + 1) (bit_xor e b) e es))

  pub length-encrypt_bytes :
      (i pp pe : ℕ) (xs : List ℕ) → length (encrypt_bytes i pp pe xs) ≡ length xs
  unfolding encrypt_bytes
  length-encrypt_bytes i pp pe [] = refl
  length-encrypt_bytes i pp pe (x ∷ xs) = ap suc (length-encrypt_bytes (i + 1) _ _ xs)

  pub length-decrypt_bytes :
      (i pp pe : ℕ) (xs : List ℕ) → length (decrypt_bytes i pp pe xs) ≡ length xs
  unfolding decrypt_bytes
  length-decrypt_bytes i pp pe [] = refl
  length-decrypt_bytes i pp pe (x ∷ xs) = ap suc (length-decrypt_bytes (i + 1) _ _ xs)

  -- Ciphertext is bytes again.
  pub encrypt_bytes-AllBytes :
      (i pp pe : ℕ) (xs : List ℕ) → AllBytes xs → AllBytes (encrypt_bytes i pp pe xs)
  unfolding encrypt_bytes
  encrypt_bytes-AllBytes i pp pe [] h = tt
  encrypt_bytes-AllBytes i pp pe (x ∷ xs) h = (
    bit_xor-lt 8 _ _ (bit_xor-lt 8 x _ h.0 (omega arith)) (omega arith),
    encrypt_bytes-AllBytes (i + 1) _ _ xs h.1,
  )
