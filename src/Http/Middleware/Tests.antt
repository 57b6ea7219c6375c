-- ===== src/Http/Middleware/Tests.antt =====
-- A request with a token.
use uitgo_monorepo.Base.{none, some, ◌==◌, if◌then◌else◌}
use uitgo_monorepo.Base.Text.{trim_space}
use uitgo_monorepo.Http.Middleware.{Headers, ParseJwt, auth}
use uitgo_monorepo.Http.Middleware.Trust.{IsTrusted, auth-IsTrusted}

abbrev one_token : ParseJwt
one_token token secret = if token == "abc" then some ("u", "rider") else none

abbrev carried : Headers
carried = record {
  authorization = "Bearer abc";
  internal_token = "";
  user_id = "x";
  role = "admin";
}

auth-IsTrusted_example :
    IsTrusted one_token
      (trim_space "key ")
      (trim_space "inner")
      carried
      (auth one_token "key " "inner" carried)
auth-IsTrusted_example = auth-IsTrusted one_token "key " "inner" carried
