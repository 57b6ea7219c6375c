-- ===== src/Auth.antt =====
-- Accounts and sessions: the data and interfaces of backend/internal/domain/user_model.go,
-- user_repo.go and refresh_token_repo.go.
pub mod Users
pub mod Tokens
pub mod Handlers
pub mod Sessions
use uitgo_monorepo.Base.{ℕ, String, Bool, Option, List}
use uitgo_monorepo.Base.Int.{ℤ}
use uitgo_monorepo.Base.Action.{Action}

pub record User : Type 0 where
  pub id : String
  pub name : String
  pub email : String
  pub phone : String
  pub password_hash : String
  pub role : String
  pub created_at : ℕ
  pub disabled : Bool

-- `Create` writes through its pointer: what it holds afterwards comes back.
pub record UserRepository (W : Type 0) : Type 0 where
  pub create : User → Action W User
  pub find_by_email : String → Action W User
  pub find_by_id : String → Action W User
  pub update_profile : String → Option String → Option String → Action W User
  pub list : String → Option Bool → String → ℤ → ℤ → Action W (List User × ℤ)
  pub update_role_and_status : String → Option String → Option Bool → Action W User

-- The ciphertext is a sequence of bytes; times are counts of nanoseconds, which may lie before the
-- epoch.
pub record RefreshToken : Type 0 where
  pub id : String
  pub user_id : String
  pub token_hash : String
  pub token_ciphertext : List ℕ
  pub created_at : ℕ
  pub expires_at : ℤ
  pub revoked_at : Option ℕ

pub record RefreshTokenRepository (W : Type 0) : Type 0 where
  pub create : RefreshToken → Action W RefreshToken
  pub find_active_by_hash : String → Action W RefreshToken
  pub revoke : String → Action W (Unit {0})
  pub revoke_all_for_user : String → Action W (Unit {0})
