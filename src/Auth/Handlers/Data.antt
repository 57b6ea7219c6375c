-- ===== src/Auth/Handlers/Data.antt =====
-- The struct of backend/internal/http/handlers/auth.go with its requests and replies.
use uitgo_monorepo.Base.{
  ℕ, String, Bool, false, ◌/◌, ◌+◌, ◌==◌, Option, none, some, List, if◌then◌else◌,
}
use uitgo_monorepo.Base.Int.{ℤ, pos, negsuc, leb_ℤ, sub_ℕ}
use uitgo_monorepo.Base.Text.{is_empty, trim_space, to_lower, concat}
use uitgo_monorepo.Errors.{Error, message, response, is_record_not_found, is_duplicated_key}
use uitgo_monorepo.Base.Action.{Result, ok, err, Action}
use uitgo_monorepo.Driver.{Driver}
use uitgo_monorepo.Driver.Service.{DriverRegistrationInput}
use uitgo_monorepo.Notification.{Notification, NotificationRepository}
use uitgo_monorepo.Security.{Crypto, derive_key}
use uitgo_monorepo.Auth.{User, UserRepository, RefreshTokenRepository}

pub record DriverProvisioner (W : Type 0) : Type 0 where
  pub register : String → DriverRegistrationInput → Action W Driver

-- `jwt.MapClaims` with the subject, the address and the role; times are Unix seconds.
pub record Claims : Type 0 where
  pub sub : String
  pub email : String
  pub role : String
  pub iat : ℤ
  pub exp : ℤ

-- The struct, with the clock, the cryptography and the signature of JWT that its methods use.
pub record AuthHandler (W : Type 0) : Type 0 where
  pub users : UserRepository W
  pub jwt_secret : String
  pub notifications : Option (NotificationRepository W)
  pub driver_service : Option (DriverProvisioner W)
  pub refresh_tokens : Option (RefreshTokenRepository W)
  pub access_ttl : ℤ
  pub refresh_ttl : ℤ
  pub refresh_key : List ℕ
  pub now : W → ℕ × W
  pub crypto : Crypto W
  pub sign : String → Claims → Result String

-- What `NewAuthHandler` reads of the configuration; durations are nanoseconds.
pub record AuthConfig : Type 0 where
  pub jwt_secret : String
  pub refresh_token_key : String
  pub access_token_ttl : ℤ
  pub refresh_token_ttl : ℤ

pub record RegisterRequest : Type 0 where
  pub name : String
  pub email : String
  pub phone : String
  pub password : String

pub record LoginRequest : Type 0 where
  pub email : String
  pub password : String

pub record UpdateProfileRequest : Type 0 where
  pub name : Option String
  pub phone : Option String

pub record AuthResponse : Type 0 where
  pub id : String
  pub email : String
  pub name : String
  pub role : String
  pub access_token : String
  pub refresh_token : String
  pub expires_in : ℤ
  pub token : String

pub record UserResponse : Type 0 where
  pub id : String
  pub name : String
  pub email : String
  pub phone : String
  pub role : String
  pub created_at : ℕ
  pub disabled : Bool

abbrev pub to_user_response : User → UserResponse
to_user_response user = record {
  id = user.id;
  name = user.name;
  email = user.email;
  phone = user.phone;
  role = user.role;
  created_at = user.created_at;
  disabled = user.disabled;
}

-- `Time.Unix`, which rounds down.
unfoldable pub unix : ℤ → ℤ
unix (pos n) = pos (n / 1000000000)
unix (negsuc n) = negsuc (n / 1000000000)

-- `int64(d.Seconds())`, which rounds towards zero.
unfoldable pub whole_seconds : ℤ → ℤ
whole_seconds (pos n) = pos (n / 1000000000)
whole_seconds (negsuc n) = sub_ℕ 0 ((n + 1) / 1000000000)

abbrev pub or_default : ℤ → ℤ → ℤ
or_default ttl default = if leb_ℤ ttl (pos 0) then default else ttl

abbrev pub fifteen_minutes : ℤ
fifteen_minutes = pos 900000000000

abbrev pub thirty_days : ℤ
thirty_days = pos 2592000000000000

-- `NewAuthHandler`
unfoldable pub new_auth_handler :
    {W : Type 0}
    → AuthConfig
    → UserRepository W
    → Option (NotificationRepository W)
    → Option (DriverProvisioner W)
    → Option (RefreshTokenRepository W)
    → (W → ℕ × W)
    → Crypto W
    → (String → Claims → Result String)
    → Result (AuthHandler W)
new_auth_handler cfg users notifications driver_service none now crypto sign =
    err (message "refresh token repository not configured")
new_auth_handler cfg users notifications driver_service (some refresh_repo) now crypto sign =
    if is_empty (trim_space cfg.jwt_secret)
    then err (message "jwt secret not configured")
    else if is_empty (trim_space cfg.refresh_token_key)
    then err (message "refresh token encryption key missing")
    else ok (record {
      users = users;
      jwt_secret = trim_space cfg.jwt_secret;
      notifications = notifications;
      driver_service = driver_service;
      refresh_tokens = some refresh_repo;
      access_ttl = or_default cfg.access_token_ttl fifteen_minutes;
      refresh_ttl = or_default cfg.refresh_token_ttl thirty_days;
      refresh_key = derive_key crypto (trim_space cfg.refresh_token_key);
      now = now;
      crypto = crypto;
      sign = sign;
    })

-- The status 401 for an account or a token that is not there, and 500 for any other error.
abbrev pub unknown_or_failed : String → Error → Error
unknown_or_failed text e =
    if is_record_not_found e then response 401 (message text) else response 500 (message text)

-- The status 404 for an account that is not there, and 500 with another text for any other error.
abbrev pub missing_or_failed : String → Error → Error
missing_or_failed text e =
    if is_record_not_found e
    then response 404 (message "user not found")
    else response 500 (message text)

abbrev pub always_500 : String → Error → Error
always_500 text e = response 500 (message text)

abbrev pub not_created : Error → Error
not_created e =
    if is_duplicated_key e
    then response 409 (message "email already registered")
    else response 500 (message "failed to create user")

abbrev pub welcome : String → String → Notification
welcome user_id display_name = record {
  id = "";
  user_id = user_id;
  title = "Chào mừng đến với UIT-Go!";
  body = concat "Xin chào " (
      concat display_name
        ", cảm ơn bạn đã trải nghiệm UIT-Go. Chúng tôi đã sẵn sàng đồng hành trên mọi hành trình.");
  kind = "system";
  trip_id = none;
  created_at = 0;
  read_at = none;
}

abbrev pub first_offer : String → Notification
first_offer user_id = record {
  id = "";
  user_id = user_id;
  title = "Ưu đãi độc quyền";
  body = "Nhập mã UITGO50 để được giảm 50% cho chuyến đi đầu tiên trong hôm nay.";
  kind = "promotion";
  trip_id = none;
  created_at = 0;
  read_at = none;
}

unfoldable pub trimmed_request : RegisterRequest → RegisterRequest
trimmed_request req = record req {
  email = trim_space (to_lower req.email);
  name = trim_space req.name;
  phone = trim_space req.phone;
}

unfoldable pub same_token : Result String → String → Bool
same_token (ok stored) token = stored == token
same_token (err e) token = false
