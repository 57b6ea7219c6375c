-- ===== src/Http/Middleware.antt =====
-- What runs before the handlers: backend/internal/http/middleware/auth.go (`Auth`, `InternalOnly`) and
-- roles.go. A middleware that aborts is an error reply.
pub mod Trust
mod Tests
use text.Mathlib.Text.{starts_with}
use uitgo_monorepo.Base.{
  ℕ, String, ◌+◌, ◌-◌, Bool, true, false, not, ◌==◌, ◌&&◌, ◌||◌, Option, none, some, List, [], ◌∷◌,
  eqb, ltb, if◌then◌else◌,
}
use uitgo_monorepo.Base.Text.{is_empty, trim_space, to_lower, drop_chars, concat}
use uitgo_monorepo.Base.Int.{ℤ, pos, leb_ℤ, ltb_ℤ, ◌-ℤ◌}
use uitgo_monorepo.Errors.{message, response}
use uitgo_monorepo.Base.Action.{Action, raise_if, ◌>>=◌, ◌>>◌}
use uitgo_monorepo.Http.{Context}

-- The headers that are read; an empty text where there is none.
pub record Headers : Type 0 where
  pub authorization : String
  pub internal_token : String
  pub user_id : String
  pub role : String

-- The claims of a valid token, a claim that is missing being empty: `jwt.Parse` of the token and the
-- secret, for the HMAC methods.
abbrev pub ParseJwt : Type 0
ParseJwt = String → String → Option (String × String)

abbrev pub claims_or_nothing : Option (String × String) → String × String
claims_or_nothing none = ("", "")
claims_or_nothing (some claims) = claims

unfoldable pub parse_bearer : ParseJwt → String → String → String × String
parse_bearer parse header secret =
    let trimmed = trim_space header in
    if is_empty trimmed || not (starts_with trimmed "Bearer ")
    then ("", "")
    else let token = trim_space (drop_chars 7 trimmed) in
      if is_empty token then ("", "") else claims_or_nothing (parse token secret)

-- The subject and the role of the token, if it has a subject.
unfoldable pub from_bearer : ParseJwt → String → Headers → Context
from_bearer parse secret h =
    let (sub, role) = parse_bearer parse h.authorization secret in
    if is_empty secret || is_empty sub
    then record { user_id = ""; role = "" }
    else record { user_id = sub; role = role }

-- The identity that an internal caller passes on beside the secret.
unfoldable pub from_internal : String → Headers → Context
from_internal secret h =
    let token = trim_space h.internal_token in
    if not (is_empty token) && token == secret
    then record { user_id = trim_space h.user_id; role = trim_space h.role }
    else record { user_id = ""; role = "" }

-- `Auth`
unfoldable pub auth : ParseJwt → String → String → Headers → Context
auth parse jwt_secret internal_secret h =
    let c = from_bearer parse (trim_space jwt_secret) h in
    if is_empty c.user_id && not (is_empty (trim_space internal_secret))
    then from_internal (trim_space internal_secret) h
    else c

-- `InternalOnly` of the secret and the header of the token.
unfoldable pub internal_only : {W : Type 0} → String → String → Action W (Unit {0})
internal_only secret header = do
  raise_if (is_empty (trim_space secret))
      (response 403 (message "internal endpoints not configured"))
  raise_if (is_empty (trim_space header)) (response 401 (message "internal access only"))
  raise_if (not (trim_space header == trim_space secret))
      (response 401 (message "invalid internal token"))

-- The allowed roles, those that are blank left out.
unfoldable pub allowed_set : List String → List String
allowed_set [] = []
allowed_set (role ∷ roles) =
    let trimmed = to_lower (trim_space role) in
    let rest = allowed_set roles in if is_empty trimmed then rest else trimmed ∷ rest

unfoldable pub is_one_of : List String → String → Bool
is_one_of [] role = false
is_one_of (r ∷ roles) role = r == role || is_one_of roles role

-- With no allowed role, any role passes.
unfoldable pub lacks_role : List String → String → Bool
lacks_role [] role = false
lacks_role (r ∷ roles) role = not (is_one_of (r ∷ roles) role)

-- `RequireRoles`
unfoldable pub require_roles : {W : Type 0} → List String → Context → Action W (Unit {0})
require_roles allowed c = do
  let role = to_lower (trim_space c.role)
  raise_if (is_empty role) (response 401 (message "missing role context"))
  raise_if (lacks_role (allowed_set allowed) role) (response 403 (message "admin role required"))
