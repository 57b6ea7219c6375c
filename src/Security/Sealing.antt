-- ===== src/Security/Sealing.antt =====
-- A token that was encrypted is decrypted again.
use uitgo_monorepo.Base.{
  ℕ, String, ◌≡◌, refl, ap, false, List, [], ◌∷◌, ◌++◌, length, take, drop, ltb, arith,
  length-append,
}
use uitgo_monorepo.Base.Action.{ok}
use uitgo_monorepo.Base.Action.Ensures.{Ensures, returned, Ensures-bind, Ensures-raise_if}
use uitgo_monorepo.Base.Action.{checked}
use uitgo_monorepo.Base.Action.Ensures.{checked-Kept}
use uitgo_monorepo.Security.{
  Gcm, Crypto, is_nil, encrypt_token, decrypt_token, with_gcm, split_payload, opened,
}

-- Documented behaviour: what was sealed opens under its nonce, and the random bytes are as many as
-- were asked for.
pub record IsCrypto {W : Type 0} (c : Crypto W) : Type 0 where
  pub unseal_law :
      (key : List ℕ) (gcm : Gcm) (nonce plain : List ℕ)
      → c.new_gcm key ≡ ok gcm
      → length nonce ≡ gcm.nonce_size
      → gcm.unseal nonce (gcm.seal nonce plain) ≡ ok plain
  pub random_law :
      (n : ℕ) (w : W) → Ensures (λ bs w'. length bs ≡ n) (λ e w'. Unit {0}) (c.read_random n w)

take-append : (xs ys : List ℕ) → take (length xs) (xs ++ ys) ≡ xs
take-append [] ys = refl
take-append (x ∷ xs) ys = ap (λ t. x ∷ t) (take-append xs ys)

drop-append : (xs ys : List ℕ) → drop (length xs) (xs ++ ys) ≡ ys
drop-append [] ys = refl
drop-append (x ∷ xs) ys = drop-append xs ys

not_short : (xs ys : List ℕ) → ltb (length (xs ++ ys)) (length xs) ≡ false
not_short xs ys = ground (arith, length-append xs ys)

module _ {W : Type 0} {c : Crypto W} (laws : IsCrypto c) where
  split_payload-sealed :
      (key : List ℕ) (gcm : Gcm) (nonce : List ℕ) (token : String)
      → c.new_gcm key ≡ ok gcm
      → length nonce ≡ gcm.nonce_size
      → c.text (c.bytes token) ≡ token
      → split_payload c gcm (nonce ++ gcm.seal nonce (c.bytes token)) ≡ ok token
  unfolding split_payload opened
  split_payload-sealed key gcm nonce token is size spelled =
      let body = gcm.seal nonce (c.bytes token) in
      rw (← size) (
        rw (not_short nonce body) (
          rw (take-append nonce body) (
            rw (drop-append nonce body)
              (rw (laws.unseal_law key gcm nonce (c.bytes token) is size) (ap ok spelled)))))

  -- Whatever EncryptToken returns for a key and a token that its bytes spell, DecryptToken gives the
  -- token back for it under that key.
  pub encrypt_token-decrypt_token :
      (key : List ℕ) (token : String) (w : W)
      → c.text (c.bytes token) ≡ token
      → Ensures
          (λ payload w'. decrypt_token c key payload ≡ ok token)
          (λ e w'. Unit {0})
          (encrypt_token c key token w)
  unfolding encrypt_token decrypt_token with_gcm
  encrypt_token-decrypt_token key token w spelled =
      Ensures-raise_if (is_nil key) _ _ w (λ _. tt)
        (λ filled.
          Ensures-bind (checked (c.new_gcm key)) _ w (checked-Kept (c.new_gcm key) w)
            (λ gcm w1 (is, _).
              Ensures-bind (c.read_random gcm.nonce_size) _ w1 (laws.random_law gcm.nonce_size w1)
                (λ nonce w2 size.
                  returned
                    (rw filled (rw is (split_payload-sealed key gcm nonce token is size spelled))))
                (λ _ _ _. tt))
            (λ _ _ _. tt))
