-- ===== src/Auth/Sessions/Login.antt =====
-- `Login` of backend/internal/http/handlers/auth.go.
use mathlib.Core.Path.{subst}
use uitgo_monorepo.Base.{ℕ, ◌≡◌, refl, sym, ap, ◌∙◌, Bool, true, false, not, some}
use uitgo_monorepo.Base.Text.{trim_space, to_lower}
use uitgo_monorepo.Base.Action.{Result, ok, err}
use uitgo_monorepo.Base.Action.Ensures.{
  Ensures, raised, Ensures-bind, Ensures-mono, Ensures-raise_if,
}
use uitgo_monorepo.Http.{or_refuse, Ensures-or_refuse}
use uitgo_monorepo.Trip.Store.{Runtime, canonical}
use uitgo_monorepo.Security.{hash_token}
use uitgo_monorepo.Auth.Users.{UserModel, UserStore}
use uitgo_monorepo.Auth.Tokens.{RefreshTokenStore}
use uitgo_monorepo.Auth.Handlers.{AuthHandler, AuthResponse, LoginRequest, login, unknown_or_failed}
use uitgo_monorepo.Auth.Sessions.{
  SessionTables, Same, IsSessionStore, Same-refl, Same-trans, Issued, Issued-after,
}
use uitgo_monorepo.Auth.Sessions.Accounts.{find_by_email-Named}
use uitgo_monorepo.Auth.Sessions.Issuing.{reply_with_session-Issued}

-- A login: the account of the address, whose password was given and which is not disabled, has a new
-- session, and the reply shows it.
pub record LoggedIn {W : Type 0} (t : SessionTables W) (h : AuthHandler W)
    (body : Result LoginRequest) (a : ℕ × AuthResponse) (w w' : W) : Type 0 where
  pub req : LoginRequest
  pub user : UserModel
  pub decoded : body ≡ ok req
  pub account : t.named w (to_lower (trim_space (to_lower req.email))) ≡ some user
  pub password :
      h.crypto.same_password (h.crypto.bytes user.password_hash) (h.crypto.bytes req.password)
      ≡ true
  pub allowed : user.disabled ≡ false
  pub shown : a.1.id ≡ user.id
  pub issued : Issued t user.id (hash_token h.crypto a.1.refresh_token) w w'

pub true_of_not : (b : Bool) → not b ≡ false → b ≡ true
true_of_not true h = refl
true_of_not false h = cc

module _ {W : Type 0} {t : SessionTables W} {r : Runtime W} {s : RefreshTokenStore W}
    {us : UserStore W} {h : AuthHandler W} (laws : IsSessionStore t r s us h) where
  -- Where Login answers, the account of the given address has the given password, is not disabled,
  -- is the one that the reply shows, and has exactly one new refresh token, whose hash is stored;
  -- where Login refuses, no token and no account differs.
  pub login-LoggedIn :
      (body : Result LoginRequest) (w : W)
      → Ensures (λ a w'. LoggedIn t h body a w w') (λ e w'. Same t w w') (login h body w)
  unfolding login
  login-LoggedIn (err e) w = raised (Same-refl t w)
  login-LoggedIn (ok req) w =
      Ensures-bind
        (or_refuse (unknown_or_failed "invalid credentials")
          (h.users.find_by_email (trim_space (to_lower req.email))))
        _ w
        (Ensures-or_refuse (unknown_or_failed "invalid credentials")
          (h.users.find_by_email (trim_space (to_lower req.email))) w
          (find_by_email-Named laws (trim_space (to_lower req.email)) w) (λ e w1 same. same))
        (λ user w1 (m, named, is, key, same).
          Ensures-raise_if (not (h.crypto.same_password _ _)) _ _ w1 (λ _. same)
            (λ right.
              Ensures-raise_if user.disabled _ _ w1 (λ _. same)
                (λ enabled.
                  Ensures-mono (reply_with_session-Issued laws 200 user w1)
                    (λ a w2 (shown, issued). record {
                      req = req;
                      user = m;
                      decoded = refl;
                      account = named;
                      password =
                          ap
                            (λ u.
                              h.crypto.same_password (h.crypto.bytes u.password_hash)
                                (h.crypto.bytes req.password))
                            (sym is)
                          ∙ true_of_not _ right;
                      allowed = ap (λ u. u.disabled) (sym is) ∙ enabled;
                      shown = shown ∙ ap (λ u. u.id) is;
                      issued =
                          subst (λ x. Issued t x (hash_token h.crypto a.1.refresh_token) w w2)
                            (ap (λ u. canonical (r.parse_id u.id)) is ∙ ap canonical key)
                            (Issued-after t same issued);
                    })
                    (λ e w2 kept. Same-trans t same kept))))
        (λ e w1 same. same)
