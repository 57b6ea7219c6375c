-- ===== src/Auth/Sessions/Issuing.antt =====
-- `issueSession` of backend/internal/http/handlers/auth.go: the row of a new refresh token.
use mathlib.Core.Path.{subst}
use uitgo_monorepo.Base.{ℕ, String, ◌≡◌, refl, sym, ap, ◌∙◌, none, List, put}
use uitgo_monorepo.Base.Int.{pos}
use uitgo_monorepo.Base.Action.{checked}
use uitgo_monorepo.Base.Action.Ensures.{
  Ensures, returned, checked-Kept, Ensures-bind, Ensures-mono, Ensures-raise_if,
}
use uitgo_monorepo.Http.{or_refuse, Ensures-or_refuse}
use uitgo_monorepo.Trip.Store.{Runtime, canonical}
use uitgo_monorepo.Security.{is_nil, encrypt_token, generate_token, hash_token}
use uitgo_monorepo.Auth.{User, RefreshToken}
use uitgo_monorepo.Auth.Users.{UserStore}
use uitgo_monorepo.Auth.Tokens.{
  RefreshTokenModel, RefreshTokenStore, create, refresh_token_repository,
}
use uitgo_monorepo.Auth.Handlers.{
  AuthHandler, sign_token, mint_refresh_token, issue_session, build_auth_response,
  reply_with_session, always_500,
}
use uitgo_monorepo.Auth.Sessions.{
  SessionTables, Same, Keeps, Inserted, IsSessionStore, Same-refl, Same-trans, Issued, Issued-after,
}

module _ {W : Type 0} {t : SessionTables W} {r : Runtime W} {s : RefreshTokenStore W}
    {us : UserStore W} {h : AuthHandler W} (laws : IsSessionStore t r s us h) where
  Same-moved : {w v v' : W} → Same t w v → v' ≡ v → Same t w v'
  Same-moved {w} same is = subst (λ x. Same t w x) (sym is) same

  sign_token-Keeps : (user : User) (w : W) → Keeps t (sign_token h user) w
  unfolding sign_token
  sign_token-Keeps user w =
      Ensures-mono (checked-Kept _ _)
        (λ a w' (_, is).
          Same-moved (Same-trans t (laws.handler_now_law w) (laws.handler_now_law _)) is)
        (λ e w' is. Same-moved (Same-trans t (laws.handler_now_law w) (laws.handler_now_law _)) is)

  Inserted-Issued :
      {m m' : RefreshTokenModel} {w v w' : W}
      → Same t w v
      → Inserted t m m' v w'
      → m.revoked_at ≡ none
      → Issued t m.user_id m.token_hash w w'
  Inserted-Issued {m} {m'} {v} same i none_yet = Issued-after t same (record {
    model = m';
    fresh = ap (λ x. t.row v x.id) i.is ∙ i.fresh;
    rows = i.rows ∙ ap (λ x. put (t.row v) x m') (sym (ap (λ x. x.id) i.is));
    accounts = i.accounts;
    owner = ap (λ x. x.user_id) i.is;
    hashed = ap (λ x. x.token_hash) i.is;
    open_ended = ap (λ x. x.revoked_at) i.is ∙ none_yet;
  })

  create-Issued :
      (token : RefreshToken) (w : W)
      → Ensures
          (λ _ w'. Issued t (canonical (r.parse_id token.user_id)) token.token_hash w w')
          (λ _ w'. Same t w w')
          (create r s token w)
  unfolding create
  create-Issued token w =
      Ensures-bind (checked (r.parse_id token.user_id)) _ w
        (checked-Kept (r.parse_id token.user_id) w)
        (λ user_id w1 (parsed, is).
          let same : Same t w (r.new_id w1).1 =
            Same-trans t (Same-moved (Same-refl t w) is) (laws.new_id_law w1).0 in
          Ensures-bind (s.create_token _) _ _
            (laws.create_token_law _ _ (laws.new_id_law w1).1
              (laws.parse_law token.user_id user_id parsed))
            (λ m' w2 inserted. returned (
              subst (λ u. Issued t u token.token_hash w w2) (sym (ap canonical parsed))
                (Inserted-Issued same inserted refl)))
            (λ e w2 kept. Same-trans t same kept))
        (λ e w1 is. Same-moved (Same-refl t w) is)

  encrypt_token-Keeps :
      (key : List ℕ) (token : String) (w : W) → Keeps t (encrypt_token h.crypto key token) w
  unfolding encrypt_token
  encrypt_token-Keeps key token w =
      Ensures-raise_if (is_nil key) _ _ w (λ _. Same-refl t w)
        (λ _.
          Ensures-bind (checked (h.crypto.new_gcm key)) _ w (checked-Kept (h.crypto.new_gcm key) w)
            (λ gcm w1 (_, is).
              let same : Same t w w1 = Same-moved (Same-refl t w) is in
              Ensures-bind (h.crypto.read_random gcm.nonce_size) _ w1
                (laws.random_law gcm.nonce_size w1)
                (λ nonce w2 kept. returned (Same-trans t same kept))
                (λ e w2 kept. Same-trans t same kept))
            (λ e w1 is. Same-moved (Same-refl t w) is))

  generate_token-Keeps : (w : W) → Keeps t (generate_token h.crypto (pos 48)) w
  unfolding generate_token
  generate_token-Keeps w =
      Ensures-bind (h.crypto.read_random 48) _ w (laws.random_law 48 w)
        (λ buf w1 kept. returned kept) (λ e w1 kept. kept)

  -- The token that comes back is the one whose hash was stored.
  mint_refresh_token-Issued :
      (user_id : String) (w : W)
      → Ensures
          (λ token w'. Issued t (canonical (r.parse_id user_id)) (hash_token h.crypto token) w w')
          (λ _ w'. Same t w w')
          (mint_refresh_token h user_id w)
  unfolding mint_refresh_token refresh_token_repository
  mint_refresh_token-Issued user_id w = rw laws.wired_law (
      Ensures-raise_if (is_nil h.refresh_key) _ _ w (λ _. Same-refl t w)
        (λ _.
          Ensures-bind (generate_token h.crypto (pos 48)) _ w (generate_token-Keeps w)
            (λ token w1 kept1.
              Ensures-bind (encrypt_token h.crypto h.refresh_key token) _ w1
                (encrypt_token-Keeps h.refresh_key token w1)
                (λ ciphertext w2 kept2.
                  let same : Same t w (h.now w2).1 =
                    Same-trans t kept1 (Same-trans t kept2 (laws.handler_now_law w2)) in
                  Ensures-bind (create r s _) _ _ (create-Issued _ _)
                    (λ created w3 issued. returned (Issued-after t same issued))
                    (λ e w3 kept3. Same-trans t same kept3))
                (λ e w2 kept2. Same-trans t kept1 kept2))
            (λ e w1 kept1. kept1)))

  pub issue_session-Issued :
      (user : User) (w : W)
      → Ensures
          (λ a w'. Issued t (canonical (r.parse_id user.id)) (hash_token h.crypto a.1) w w')
          (λ _ w'. Same t w w')
          (issue_session h user w)
  unfolding issue_session
  issue_session-Issued user w =
      Ensures-bind (sign_token h user) _ w (sign_token-Keeps user w)
        (λ access_token w1 kept.
          Ensures-bind (mint_refresh_token h user.id) _ w1 (mint_refresh_token-Issued user.id w1)
            (λ token w2 issued. returned (Issued-after t kept issued))
            (λ e w2 kept2. Same-trans t kept kept2))
        (λ e w1 kept. kept)

  -- The reply shows the user and the token that was stored.
  pub reply_with_session-Issued :
      (code : ℕ) (user : User) (w : W)
      → Ensures
          (λ a w'.
            (a.1.id ≡ user.id)
            × Issued t
                (canonical (r.parse_id user.id))
                (hash_token h.crypto a.1.refresh_token)
                w
                w')
          (λ _ w'. Same t w w')
          (reply_with_session h code user w)
  unfolding reply_with_session build_auth_response
  reply_with_session-Issued code user w =
      Ensures-bind (or_refuse (always_500 "failed to create session") (issue_session h user)) _ w
        (Ensures-or_refuse _ (issue_session h user) w (issue_session-Issued user w)
          (λ e w1 kept. kept))
        (λ a w1 issued. returned (refl, issued)) (λ e w1 kept. kept)
