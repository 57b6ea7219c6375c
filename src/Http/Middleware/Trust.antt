-- ===== src/Http/Middleware/Trust.antt =====
-- Whom `Auth` of backend/internal/http/middleware/auth.go takes a request to be from.
use text.Mathlib.Text.{starts_with}
use uitgo_monorepo.Base.{
  String, ◌≡◌, refl, Bool, true, false, not, ◌==◌, eq_iff, ◌&&◌, ◌||◌, Option, none, some,
  if◌then◌else◌,
}
use uitgo_monorepo.Base.Text.{is_empty, trim_space, drop_chars}
use uitgo_monorepo.Http.{Context}
use uitgo_monorepo.Http.Middleware.{
  Headers, ParseJwt, claims_or_nothing, parse_bearer, from_bearer, from_internal, auth,
}

-- What follows "Bearer " in a header.
abbrev pub bearer_token : String → String
bearer_token header = trim_space (drop_chars 7 (trim_space header))

-- The claims of the token of the header, which is valid under the secret, or nothing.
data Claimed (parse : ParseJwt) (secret header : String) : String × String → Type 0 where
  unclaimed : Claimed parse secret header ("", "")
  claimed :
      {claims : String × String}
      → starts_with (trim_space header) "Bearer " ≡ true
      → parse (bearer_token header) secret ≡ some claims
      → Claimed parse secret header claims

-- A request without an identity, one with the claims of the token that it carries, which is valid
-- under the secret of the tokens, and one whose caller gave the internal secret and names the identity.
pub data IsTrusted (parse : ParseJwt) (jwt_secret internal_secret : String) (h : Headers)
    : Context → Type 0 where
  nobody :
      {c : Context} → c.user_id ≡ "" → c.role ≡ "" → IsTrusted parse jwt_secret internal_secret h c
  by_token :
      {c : Context}
      → is_empty jwt_secret ≡ false
      → starts_with (trim_space h.authorization) "Bearer " ≡ true
      → parse (bearer_token h.authorization) jwt_secret ≡ some (c.user_id, c.role)
      → IsTrusted parse jwt_secret internal_secret h c
  by_secret :
      {c : Context}
      → is_empty internal_secret ≡ false
      → trim_space h.internal_token ≡ internal_secret
      → c.user_id ≡ trim_space h.user_id
      → c.role ≡ trim_space h.role
      → IsTrusted parse jwt_secret internal_secret h c

module _ (parse : ParseJwt) (secret header : String) where
  Claimed-if :
      (b : Bool) (x : String × String)
      → (b ≡ false → Claimed parse secret header x)
      → Claimed parse secret header (if b then ("", "") else x)
  Claimed-if true x p = unclaimed
  Claimed-if false x p = p refl

  claims-Claimed :
      (o : Option (String × String))
      → starts_with (trim_space header) "Bearer " ≡ true
      → parse (bearer_token header) secret ≡ o
      → Claimed parse secret header (claims_or_nothing o)
  claims-Claimed none starts is = unclaimed
  claims-Claimed (some claims) starts is = claimed starts is

  starts_of : (a b : Bool) → (a || not b) ≡ false → b ≡ true
  starts_of true b h = cc
  starts_of false true h = refl
  starts_of false false h = cc

  parse_bearer-Claimed : Claimed parse secret header (parse_bearer parse header secret)
  unfolding parse_bearer
  parse_bearer-Claimed =
      Claimed-if (is_empty (trim_space header) || not (starts_with (trim_space header) "Bearer ")) _
        (λ begins. Claimed-if (is_empty (bearer_token header)) _ (λ there.
          claims-Claimed (parse (bearer_token header) secret)
            (starts_of (is_empty (trim_space header)) _ begins) refl))

module _ (parse : ParseJwt) (jwt_secret internal_secret : String) (h : Headers) where
  Trusted : Context → Type 0
  Trusted c = IsTrusted parse jwt_secret internal_secret h c

  bearer-IsTrusted :
      (x : String × String) (a b : Bool)
      → is_empty jwt_secret ≡ a
      → Claimed parse jwt_secret h.authorization x
      → IsTrusted parse jwt_secret internal_secret h (
          if a || b
          then record { user_id = ""; role = "" }
          else record { user_id = x.0; role = x.1 })
  bearer-IsTrusted x true b is p = nobody refl refl
  bearer-IsTrusted x false true is p = nobody refl refl
  bearer-IsTrusted x false false is unclaimed = nobody refl refl
  bearer-IsTrusted x false false is (claimed starts valid) = by_token is starts valid

  from_bearer-IsTrusted :
      IsTrusted parse jwt_secret internal_secret h (from_bearer parse jwt_secret h)
  unfolding from_bearer
  from_bearer-IsTrusted =
      bearer-IsTrusted (parse_bearer parse h.authorization jwt_secret) (is_empty jwt_secret) _ refl
        (parse_bearer-Claimed parse jwt_secret h.authorization)

  internal-IsTrusted :
      (a b : Bool)
      → (trim_space h.internal_token == internal_secret) ≡ b
      → is_empty internal_secret ≡ false
      → IsTrusted parse jwt_secret internal_secret h (
          if a && b
          then record { user_id = trim_space h.user_id; role = trim_space h.role }
          else record { user_id = ""; role = "" })
  internal-IsTrusted false b same given = nobody refl refl
  internal-IsTrusted true false same given = nobody refl refl
  internal-IsTrusted true true same given =
      by_secret given ((eq_iff (trim_space h.internal_token) internal_secret).0 same) refl refl

  chosen-IsTrusted :
      (c d : Context) (a b : Bool)
      → is_empty internal_secret ≡ b
      → IsTrusted parse jwt_secret internal_secret h c
      → (is_empty internal_secret ≡ false → IsTrusted parse jwt_secret internal_secret h d)
      → IsTrusted parse jwt_secret internal_secret h (if a && not b then d else c)
  chosen-IsTrusted c d false b is p q = p
  chosen-IsTrusted c d true true is p q = p
  chosen-IsTrusted c d true false is p q = q is

-- A request is taken to be from somebody only by the token that it carries, if that is valid under the
-- configured secret, or by the word of a caller who gave the configured internal secret; otherwise it has no user and no role.
pub auth-IsTrusted :
    (parse : ParseJwt) (jwt_secret internal_secret : String) (h : Headers)
    → IsTrusted parse
        (trim_space jwt_secret)
        (trim_space internal_secret)
        h
        (auth parse jwt_secret internal_secret h)
unfolding auth from_internal
auth-IsTrusted parse jwt_secret internal_secret h =
    chosen-IsTrusted parse (trim_space jwt_secret) (trim_space internal_secret) h
      (from_bearer parse (trim_space jwt_secret) h) _ _ (is_empty (trim_space internal_secret)) refl
      (from_bearer-IsTrusted parse (trim_space jwt_secret) (trim_space internal_secret) h)
      (λ given.
        internal-IsTrusted parse (trim_space jwt_secret) (trim_space internal_secret) h
          (not (is_empty (trim_space h.internal_token))) _ refl given)
