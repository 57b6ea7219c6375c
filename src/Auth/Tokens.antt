-- ===== src/Auth/Tokens.antt =====
-- The repository of refresh tokens in backend/internal/domain/refresh_token_repo.go over the
-- statements that it runs.
use uitgo_monorepo.Base.{ℕ, String, Bool, false, true, ◌==◌, ◌&&◌, Option, none, some, List, eqb}
use uitgo_monorepo.Base.Int.{ℤ, pos, ltb_ℤ}
use uitgo_monorepo.Errors.{record_not_found}
use uitgo_monorepo.Base.Action.{Action, pure, raise, always, raise_if, ◌>>=◌}
use uitgo_monorepo.Http.{refused}
use uitgo_monorepo.Trip.Store.{Runtime}
use uitgo_monorepo.Base.Action.{checked}
use uitgo_monorepo.Auth.{RefreshToken, RefreshTokenRepository}

-- `refreshTokenModel`, a row of `refresh_tokens`
pub record RefreshTokenModel : Type 0 where
  pub id : String
  pub user_id : String
  pub token_hash : String
  pub token_ciphertext : List ℕ
  pub created_at : ℕ
  pub expires_at : ℤ
  pub revoked_at : Option ℕ

-- `created_at` of a new row is the database's. An update gives the number of rows that it changed.
pub record RefreshTokenStore (W : Type 0) : Type 0 where
  pub create_token : RefreshTokenModel → Action W RefreshTokenModel
  pub read_active : (ℕ → RefreshTokenModel → Bool) → Action W (Option RefreshTokenModel)
  pub update_token : String → (RefreshTokenModel → RefreshTokenModel) → Action W ℕ
  pub update_tokens_of : String → (RefreshTokenModel → RefreshTokenModel) → Action W (Unit {0})

abbrev pub is_null : {A : Type 0} → Option A → Bool
is_null none = true
is_null (some a) = false

-- `token_hash = ? AND revoked_at IS NULL AND expires_at > NOW()`
unfoldable pub is_active : String → ℕ → RefreshTokenModel → Bool
is_active hash now m =
    m.token_hash == hash && (is_null m.revoked_at && ltb_ℤ (pos now) m.expires_at)

abbrev pub to_refresh_token : RefreshTokenModel → RefreshToken
to_refresh_token m = record {
  id = m.id;
  user_id = m.user_id;
  token_hash = m.token_hash;
  token_ciphertext = m.token_ciphertext;
  created_at = m.created_at;
  expires_at = m.expires_at;
  revoked_at = m.revoked_at;
}

unfoldable pub revoked : ℕ → RefreshTokenModel → RefreshTokenModel
revoked now m = record m { revoked_at = some now }

module _ {W : Type 0} (r : Runtime W) (s : RefreshTokenStore W) where
  unfoldable pub create : RefreshToken → Action W RefreshToken
  create token = do
    user_id ← checked (r.parse_id token.user_id)
    id ← always r.new_id
    model ← s.create_token (record {
      id = id;
      user_id = user_id;
      token_hash = token.token_hash;
      token_ciphertext = token.token_ciphertext;
      created_at = 0;
      expires_at = token.expires_at;
      revoked_at = none;
    })
    pure (record token { id = model.id; created_at = model.created_at })

  unfoldable pub found_token : Option RefreshTokenModel → Action W RefreshToken
  found_token none = raise record_not_found
  found_token (some m) = pure (to_refresh_token m)

  unfoldable pub find_active_by_hash : String → Action W RefreshToken
  unfolding found_token
  find_active_by_hash hash = do found ← s.read_active (is_active hash); found_token found

  parsed : String → Action W String
  parsed id = checked (refused (λ e. record_not_found) (r.parse_id id))

  unfoldable pub revoke : String → Action W (Unit {0})
  unfolding parsed
  revoke id = do
    token_id ← parsed id
    now ← always r.now
    changed ← s.update_token token_id (revoked now)
    raise_if (eqb changed 0) record_not_found

  unfoldable pub revoke_all_for_user : String → Action W (Unit {0})
  unfolding parsed
  revoke_all_for_user user_id = do
    uid ← parsed user_id
    now ← always r.now
    s.update_tokens_of uid (revoked now)

  unfoldable pub refresh_token_repository : RefreshTokenRepository W
  refresh_token_repository = record {
    create = create;
    find_active_by_hash = find_active_by_hash;
    revoke = revoke;
    revoke_all_for_user = revoke_all_for_user;
  }
