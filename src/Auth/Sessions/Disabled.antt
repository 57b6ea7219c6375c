-- ===== src/Auth/Sessions/Disabled.antt =====
-- `Refresh` of backend/internal/http/handlers/auth.go reads an account and does not ask whether it is
-- disabled, which `Login` does.
use uitgo_monorepo.Base.Text.{is_empty, trim_space}
use uitgo_monorepo.Security.{hash_token, decrypt_token}
use uitgo_monorepo.Base.{String, ◌≡◌, refl, Bool, not, Option, none, some}
use uitgo_monorepo.Errors.{Error, response, message}
use uitgo_monorepo.Base.Action.{Result, ok, err, Action, resume, raise_if}
use uitgo_monorepo.Http.{refused, or_refuse, bound}
use uitgo_monorepo.Auth.{User, RefreshToken, RefreshTokenRepository}
use uitgo_monorepo.Auth.Handlers.{
  AuthHandler, refresh, refresh_with, refresh_from, exchange, same_token, reply_with_session,
  issue_session, sign_token, mint_refresh_token, build_auth_response, unknown_or_failed,
}

abbrev pub marked_result : {W : Type 0} → Bool → Result User × W → Result User × W
marked_result b (ok u, w) = (ok (record u { disabled = b }), w)
marked_result b (err e, w) = (err e, w)

-- The same handler over accounts that are all disabled, or all not.
abbrev pub marked : {W : Type 0} → Bool → AuthHandler W → AuthHandler W
marked b h = record h {
  users = record h.users { find_by_id = λ id w. marked_result b (h.users.find_by_id id w) };
}

resume-marked :
    {W A : Type 0} (b : Bool) (g : Error → Error) (x : Result User × W) (f f' : User → Action W A)
    → ((u : User) (w : W) → f' (record u { disabled = b }) w ≡ f u w)
    → resume (refused g (marked_result b x).0, (marked_result b x).1) f'
      ≡ resume (refused g x.0, x.1) f
resume-marked b g (ok u, w) f f' same = same u w
resume-marked b g (err e, w) f f' same = refl

resume-same :
    {W A B : Type 0} (x : Result A × W) (f f' : A → Action W B)
    → ((a : A) (w : W) → f' a w ≡ f a w)
    → resume x f' ≡ resume x f
resume-same (ok a, w) f f' same = same a w
resume-same (err e, w) f f' same = refl

module _ {W : Type 0} (b : Bool) (h : AuthHandler W) where
  exchange-marked :
      (tokens : RefreshTokenRepository W) (found : RefreshToken) (w : W)
      → exchange (marked b h) tokens found w ≡ exchange h tokens found w
  unfolding exchange reply_with_session issue_session sign_token mint_refresh_token
      build_auth_response
  exchange-marked tokens found w =
      resume-marked b (unknown_or_failed "user not found") (h.users.find_by_id found.user_id w) _ _
        (λ u w1. refl)

  refresh_from-marked :
      (tokens : RefreshTokenRepository W) (token : String) (w : W)
      → refresh_from (marked b h) tokens token w ≡ refresh_from h tokens token w
  unfolding refresh_from
  refresh_from-marked tokens token w =
      resume-same
        (or_refuse (unknown_or_failed "invalid refresh token")
          (tokens.find_active_by_hash (hash_token h.crypto token)) w)
        _ _
        (λ found w1.
          resume-same
            (raise_if
              (not (same_token (decrypt_token h.crypto h.refresh_key found.token_ciphertext) token))
              (response 401 (message "invalid refresh token")) w1)
            _ _ (λ _ w2. exchange-marked tokens found w2))

  refresh_with-marked :
      (o : Option (RefreshTokenRepository W)) (body : Result String) (w : W)
      → refresh_with (marked b h) o body w ≡ refresh_with h o body w
  unfolding refresh_with
  refresh_with-marked none body w = refl
  refresh_with-marked (some tokens) body w = resume-same (bound body w) _ _ (λ token w1.
      resume-same
        (raise_if (is_empty (trim_space token)) (response 400 (message "refresh token required"))
          w1)
        _ _ (λ _ w2. refresh_from-marked tokens (trim_space token) w2))

  -- A refresh does the same whether accounts are disabled or not: a disabled account keeps its sessions
  -- for as long as it refreshes them.
  pub refresh-marked :
      (body : Result String) (w : W) → refresh (marked b h) body w ≡ refresh h body w
  unfolding refresh
  refresh-marked body w = refresh_with-marked h.refresh_tokens body w
