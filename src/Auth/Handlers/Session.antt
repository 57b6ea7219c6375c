-- ===== src/Auth/Handlers/Session.antt =====
-- The sessions of backend/internal/http/handlers/auth.go: signing, minting and the reply.
use uitgo_monorepo.Base.{ℕ, String, Option, none, some, [], ◌∷◌, if◌then◌else◌}
use uitgo_monorepo.Base.Int.{pos, ◌+ℤ◌}
use uitgo_monorepo.Base.Text.{is_empty, trim_space}
use uitgo_monorepo.Errors.{message}
use uitgo_monorepo.Base.Action.{
  Action, pure, raise, always, attempt, checked, raise_if, ◌>>=◌, ◌>>◌,
}
use uitgo_monorepo.Http.{or_refuse}
use uitgo_monorepo.Notification.{NotificationRepository}
use uitgo_monorepo.Security.{is_nil, encrypt_token, hash_token, generate_token}
use uitgo_monorepo.Auth.{User, RefreshTokenRepository}
use uitgo_monorepo.Auth.Handlers.Data.{
  AuthHandler, AuthResponse, always_500, first_offer, or_default, unix, welcome, whole_seconds,
}

module _ {W : Type 0} (h : AuthHandler W) where
  unfoldable pub sign_token : User → Action W String
  sign_token user = do
    issued ← always h.now
    expires ← always h.now
    checked (
        h.sign h.jwt_secret (record {
          sub = user.id;
          email = user.email;
          role = user.role;
          iat = unix (pos issued);
          exp = unix (pos expires +ℤ h.access_ttl);
        }))

  mint_into : Option (RefreshTokenRepository W) → String → Action W String
  mint_into none user_id = raise (message "refresh token functionality disabled")
  mint_into (some tokens) user_id = do
    raise_if (is_nil h.refresh_key) (message "refresh token functionality disabled")
    raw_token ← generate_token h.crypto (pos 48)
    ciphertext ← encrypt_token h.crypto h.refresh_key raw_token
    now ← always h.now
    created ← tokens.create (record {
      id = "";
      user_id = user_id;
      token_hash = hash_token h.crypto raw_token;
      token_ciphertext = ciphertext;
      created_at = 0;
      expires_at = pos now +ℤ h.refresh_ttl;
      revoked_at = none;
    })
    pure raw_token

  unfoldable pub mint_refresh_token : String → Action W String
  unfolding mint_into
  mint_refresh_token user_id = mint_into h.refresh_tokens user_id

  unfoldable pub issue_session : User → Action W (String × String)
  issue_session user = do
    access_token ← sign_token user
    refresh_token ← mint_refresh_token user.id
    pure (access_token, refresh_token)

  unfoldable pub build_auth_response : User → String × String → AuthResponse
  build_auth_response user (access_token, refresh_token) = record {
    id = user.id;
    email = user.email;
    name = user.name;
    role = user.role;
    access_token = access_token;
    refresh_token = refresh_token;
    expires_in = or_default (whole_seconds h.access_ttl) (pos 900);
    token = access_token;
  }

  -- The session of a user whose checks are done, and the reply with it.
  unfoldable pub reply_with_session : ℕ → User → Action W (ℕ × AuthResponse)
  reply_with_session code user = do
    session ← or_refuse (always_500 "failed to create session") (issue_session user)
    pure (code, build_auth_response user session)

  seed_into : Option (NotificationRepository W) → String → String → Action W (Unit {0})
  seed_into none user_id user_name = pure tt
  seed_into (some notifications) user_id user_name = do
    let display_name = trim_space user_name
    seeded ← attempt (
        notifications.create_many (
          welcome user_id (if is_empty display_name then "UIT-Go Rider" else display_name)
          ∷ first_offer user_id
          ∷ []))
    pure tt

  unfoldable pub seed_welcome_notifications : String → String → Action W (Unit {0})
  unfolding seed_into
  seed_welcome_notifications user_id user_name = seed_into h.notifications user_id user_name
