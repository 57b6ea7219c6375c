-- ===== src/Security.antt =====
-- The tokens of backend/internal/security/token_crypto.go. SHA-256, AES-GCM, the source of random
-- bytes, the encodings of bytes and bcrypt are parameters.
pub mod Sealing
use uitgo_monorepo.Base.{
  ℕ, String, ◌≡◌, Bool, List, [], ◌∷◌, ◌++◌, length, take, drop, ltb, if◌then◌else◌,
}
use uitgo_monorepo.Base.Int.{ℤ, pos, negsuc, pos_part, leb_ℤ}
use uitgo_monorepo.Errors.{message}
use uitgo_monorepo.Base.Action.{Result, ok, err, Action, pure, raise_if, ◌>>=◌, ◌>>◌}
use uitgo_monorepo.Base.Action.{checked}

-- `cipher.AEAD` with no additional data. A text that was altered does not open.
pub record Gcm : Type 0 where
  pub nonce_size : ℕ
  pub seal : List ℕ → List ℕ → List ℕ
  pub unseal : List ℕ → List ℕ → Result (List ℕ)

-- `new_gcm` is `aes.NewCipher` and then `cipher.NewGCM`. `same_password` is bcrypt's comparison of a
-- hash and a password.
pub record Crypto (W : Type 0) : Type 0 where
  pub sha256 : List ℕ → List ℕ
  pub new_gcm : List ℕ → Result Gcm
  pub read_random : ℕ → Action W (List ℕ)
  pub bytes : String → List ℕ
  pub text : List ℕ → String
  pub hex : List ℕ → String
  pub base64_url : List ℕ → String
  pub hash_password : List ℕ → Action W (List ℕ)
  pub same_password : List ℕ → List ℕ → Bool

abbrev pub is_nil : List ℕ → Bool
is_nil [] = Bool.true
is_nil (x ∷ xs) = Bool.false

module _ {W : Type 0} (c : Crypto W) where
  unfoldable pub derive_key : String → List ℕ
  derive_key secret = c.sha256 (c.bytes secret)

  -- The nonce, and then the ciphertext.
  unfoldable pub encrypt_token : List ℕ → String → Action W (List ℕ)
  encrypt_token key plaintext = do
    raise_if (is_nil key) (message "encryption key missing")
    gcm ← checked (c.new_gcm key)
    nonce ← c.read_random gcm.nonce_size
    pure (nonce ++ gcm.seal nonce (c.bytes plaintext))

  opened : Result (List ℕ) → Result String
  opened (ok plaintext) = ok (c.text plaintext)
  opened (err e) = err e

  split_payload : Gcm → List ℕ → Result String
  unfolding opened
  split_payload gcm payload =
      if ltb (length payload) gcm.nonce_size
      then err (message "ciphertext too short")
      else opened (gcm.unseal (take gcm.nonce_size payload) (drop gcm.nonce_size payload))

  with_gcm : Result Gcm → List ℕ → Result String
  unfolding split_payload
  with_gcm (ok gcm) payload = split_payload gcm payload
  with_gcm (err e) payload = err e

  unfoldable pub decrypt_token : List ℕ → List ℕ → Result String
  unfolding with_gcm
  decrypt_token key payload =
      if is_nil key
      then err (message "encryption key missing")
      else with_gcm (c.new_gcm key) payload

  unfoldable pub hash_token : String → String
  hash_token token = c.hex (c.sha256 (c.bytes token))

  unfoldable pub generate_token : ℤ → Action W String
  generate_token bytes_len = do
    buf ← c.read_random (if leb_ℤ bytes_len (pos 0) then 32 else pos_part bytes_len)
    pure (c.base64_url buf)
