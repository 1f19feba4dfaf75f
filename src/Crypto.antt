-- ===== src/Crypto.antt =====
-- The cryptographic libraries that the code calls (aes_gcm, argon2, sha2, base64), with the behaviour
-- that the theorems rely on, and crates/r4a-core/src/crypto.rs over them. A key and a nonce are byte
-- lists. `Toy` meets the interface.
pub mod Toy
use rust4eska.Prelude.{
  ◌≡◌, inl, inr, arith, Text, Option, Result, Result-cases, eq_of_ok, ok, err, Bool, true, bind,
}

pub record Crypto : Type 0 where
  -- `Aes256Gcm::new(key).encrypt(nonce, data)`
  pub aes_encrypt : Text → Text → Text → Result Text
  pub aes_decrypt : Text → Text → Text → Result Text
  pub aes_decrypt-aes_encrypt :
      (key nonce plain sealed : Text)
      → aes_encrypt key nonce plain ≡ ok sealed
      → aes_decrypt key nonce sealed ≡ ok plain
  -- `Argon2::default().hash_password_into(password, salt, &mut key)`, which fills 32 bytes
  pub hash_password_into : Text → Text → Result Text
  -- `Argon2::default().hash_password(password, salt)?.to_string()`
  pub hash_password : Text → Text → Result Text
  -- `PasswordHash::new(hash)?` and then whether `verify_password(password, hash)` succeeds
  pub verify_password : Text → Text → Result Bool
  pub verify_password-hash_password :
      (password salt hash : Text)
      → hash_password password salt ≡ ok hash
      → verify_password password hash ≡ ok true
  -- `format!("{:x}", Sha256::digest(bytes))`
  pub sha256 : Text → Text
  -- `base64::engine::general_purpose::STANDARD.decode(text)`
  pub base64_decode : Text → Result Text

module _ (C : Crypto) where
  open C use {aes_encrypt, aes_decrypt, hash_password_into}

  unfoldable pub derive_key_simple : Text → Text → Result Text
  derive_key_simple password salt = hash_password_into password salt

  -- The nonce, twelve random bytes, comes from outside.
  unfoldable pub encrypt : Text → Text → Text → Result (Text × Text)
  encrypt nonce key plain = bind (aes_encrypt key nonce plain) λ ciphertext. ok (ciphertext, nonce)

  unfoldable pub decrypt : Text → Text → Text → Result Text
  decrypt key ciphertext nonce = aes_decrypt key nonce ciphertext

  -- What was encrypted is decrypted with the same key and the nonce that came with it.
  pub decrypt-encrypt :
      (nonce key plain : Text) (sealed : Text × Text)
      → encrypt nonce key plain ≡ ok sealed
      → decrypt key sealed.0 sealed.1 ≡ ok plain
  unfolding encrypt decrypt
  decrypt-encrypt nonce key plain sealed h = elim (Result-cases (aes_encrypt key nonce plain)) [
    | inl (e, p) ↦ absurd (ground (arith, h, p))
    | inr (ciphertext, p) ↦
        let is_sealed : (ciphertext, nonce) ≡ sealed = eq_of_ok (rw p at h) in
        rw (← is_sealed) (C.aes_decrypt-aes_encrypt key nonce plain ciphertext p)
  ]
