-- ===== src/Auth/Handlers/Entry.antt =====
-- Registration, login, refresh and profile in backend/internal/http/handlers/auth.go.
use uitgo_monorepo.Base.{ℕ, String, Bool, true, false, not, ◌&&◌, Option, none, some, if◌then◌else◌}
use uitgo_monorepo.Base.Text.{is_empty, trim_space, to_lower}
use uitgo_monorepo.Errors.{message, response, is_record_not_found}
use uitgo_monorepo.Base.Action.{Result, ok, err, Action, pure, attempt, raise_if, ◌>>=◌, ◌>>◌}
use uitgo_monorepo.Http.{Context, refuse, or_refuse, bound}
use uitgo_monorepo.Security.{decrypt_token, hash_token}
use uitgo_monorepo.Auth.{User, RefreshToken, RefreshTokenRepository}
use uitgo_monorepo.Auth.Handlers.Data.{
  AuthHandler, AuthResponse, LoginRequest, RegisterRequest, UpdateProfileRequest, UserResponse,
  always_500, missing_or_failed, not_created, same_token, to_user_response, trimmed_request,
  unknown_or_failed,
}
use uitgo_monorepo.Auth.Handlers.Session.{reply_with_session, seed_welcome_notifications}

module _ {W : Type 0} (h : AuthHandler W) where
  free_email : Result User → Action W (Unit {0})
  free_email (ok existing) = refuse 409 (message "email already registered")
  free_email (err e) =
      if is_record_not_found e
      then pure tt
      else refuse 500 (message "failed to check existing user")

  -- The address must be nobody's yet.
  unfoldable pub check_email : String → Action W (Unit {0})
  unfolding free_email
  check_email email = do
    raise_if (is_empty h.jwt_secret) (response 500 (message "jwt secret not configured"))
    existing ← attempt (h.users.find_by_email email)
    free_email existing

  -- A user with a hash of its password.
  unfoldable pub create_account : String → RegisterRequest → Action W User
  create_account role req = do
    hash ←
        or_refuse (always_500 "failed to hash password")
          (h.crypto.hash_password (h.crypto.bytes req.password))
    or_refuse not_created (
        h.users.create (record {
          id = "";
          name = req.name;
          email = req.email;
          phone = req.phone;
          password_hash = h.crypto.text hash;
          role = role;
          created_at = 0;
          disabled = false;
        }))

  -- The goroutine that writes the notifications is a call before the session is made.
  unfoldable pub register : Result RegisterRequest → Action W (ℕ × AuthResponse)
  register body = do
    req ← bound body
    let trimmed = trimmed_request req
    check_email trimmed.email
    user ← create_account "rider" trimmed
    seed_welcome_notifications h user.id user.name
    reply_with_session h 201 user

  unfoldable pub login : Result LoginRequest → Action W (ℕ × AuthResponse)
  login body = do
    req ← bound body
    user ←
        or_refuse (unknown_or_failed "invalid credentials")
          (h.users.find_by_email (trim_space (to_lower req.email)))
    raise_if
        (not (
          h.crypto.same_password (h.crypto.bytes user.password_hash) (h.crypto.bytes req.password)))
        (response 401 (message "invalid credentials"))
    raise_if user.disabled (response 403 (message "account disabled"))
    reply_with_session h 200 user

  -- The part of `Refresh` after the token was found and compared.
  unfoldable pub exchange : RefreshTokenRepository W → RefreshToken → Action W (ℕ × AuthResponse)
  exchange tokens found = do
    user ← or_refuse (unknown_or_failed "user not found") (h.users.find_by_id found.user_id)
    revoking ← attempt (tokens.revoke found.id)
    reply_with_session h 200 user

  unfoldable pub refresh_from : RefreshTokenRepository W → String → Action W (ℕ × AuthResponse)
  refresh_from tokens token = do
    found ←
        or_refuse (unknown_or_failed "invalid refresh token")
          (tokens.find_active_by_hash (hash_token h.crypto token))
    raise_if (not (same_token (decrypt_token h.crypto h.refresh_key found.token_ciphertext) token))
        (response 401 (message "invalid refresh token"))
    exchange tokens found

  unfoldable pub refresh_with :
      Option (RefreshTokenRepository W) → Result String → Action W (ℕ × AuthResponse)
  refresh_with none body = refuse 503 (message "refresh token store unavailable")
  refresh_with (some tokens) body = do
    token ← bound body
    raise_if (is_empty (trim_space token)) (response 400 (message "refresh token required"))
    refresh_from tokens (trim_space token)

  unfoldable pub refresh : Result String → Action W (ℕ × AuthResponse)
  refresh body = refresh_with h.refresh_tokens body

  unfoldable pub me : Context → Action W (ℕ × UserResponse)
  me c = do
    raise_if (is_empty c.user_id) (response 401 (message "missing user context"))
    user ← or_refuse (missing_or_failed "failed to load user") (h.users.find_by_id c.user_id)
    pure (200, to_user_response user)

  is_nothing : Option String → Bool
  is_nothing none = true
  is_nothing (some s) = false

  unfoldable pub update_me : Context → Result UpdateProfileRequest → Action W (ℕ × UserResponse)
  unfolding is_nothing
  update_me c body = do
    raise_if (is_empty c.user_id) (response 401 (message "missing user context"))
    req ← bound body
    raise_if (is_nothing req.name && is_nothing req.phone)
        (response 400 (message "nothing to update"))
    user ←
        or_refuse (missing_or_failed "failed to update profile")
          (h.users.update_profile c.user_id req.name req.phone)
    pure (200, to_user_response user)
