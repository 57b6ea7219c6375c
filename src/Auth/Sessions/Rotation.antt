-- ===== src/Auth/Sessions/Rotation.antt =====
-- `Refresh` of backend/internal/http/handlers/auth.go: a refresh token is exchanged for a new one.
use mathlib.Core.Path.{subst}
use uitgo_monorepo.Base.{
  ℕ, String, ◌≡◌, refl, sym, ap, ◌∙◌, true, false, not, Option, none, some, put, eq_iff, eqb,
}
use uitgo_monorepo.Base.Text.{trim_space, is_empty}
use uitgo_monorepo.Errors.{Error, record_not_found}
use uitgo_monorepo.Base.Action.{Result, ok, err}
use uitgo_monorepo.Base.Action.Ensures.{
  Ensures, raised, returned, Ensures-bind, Ensures-mono, Ensures-raise_if, Ensures-attempt,
  Ensures-raise_if_end, Ensures-known,
}
use uitgo_monorepo.Http.{or_refuse, Ensures-or_refuse}
use uitgo_monorepo.Trip.Store.{Runtime, canonical}
use uitgo_monorepo.Security.{hash_token, decrypt_token}
use uitgo_monorepo.Auth.{User}
use uitgo_monorepo.Auth.Users.{UserModel, UserStore, to_user}
use uitgo_monorepo.Auth.Tokens.{
  RefreshTokenModel, RefreshTokenStore, to_refresh_token, is_active, revoked, revoke,
  find_active_by_hash, found_token, refresh_token_repository,
}
use uitgo_monorepo.Auth.Handlers.{
  AuthHandler, AuthResponse, refresh, refresh_with, refresh_from, exchange, same_token,
  unknown_or_failed, reply_with_session,
}
use uitgo_monorepo.Auth.Sessions.{
  SessionTables, Same, IsKey, IsSessionStore, TokenUpdated, token_hit, token_missed, FoundActive,
  found_active, found_nothing, Same-refl, Same-trans, Issued,
}
use uitgo_monorepo.Auth.Sessions.Accounts.{find_by_id-Known}
use uitgo_monorepo.Auth.Sessions.Login.{true_of_not}
use uitgo_monorepo.Auth.Sessions.Issuing.{reply_with_session-Issued}

same_token-ok : (x : Result String) (token : String) → same_token x token ≡ true → x ≡ ok token
unfolding same_token
same_token-ok (ok stored) token h = ap ok ((eq_iff stored token).0 h)
same_token-ok (err e) token h = cc

module _ {W : Type 0} (t : SessionTables W) (r : Runtime W) (s : RefreshTokenStore W) where
  -- A token that was to be revoked: it is, or `Revoke` failed and the rows are as they were.
  pub data Retired (old : RefreshTokenModel) (w w' : W) : Type 0 where
    stayed :
        (e : Error) (u v : W)
        → Same t w u
        → revoke r s old.id u ≡ (err e, v)
        → Same t w w'
        → Retired old w w'
    gone :
        (n : ℕ)
        → t.row w' ≡ put (t.row w) old.id (revoked n old)
        → t.account w' ≡ t.account w
        → Retired old w w'

  -- A token that was found: it was not revoked and not expired at the time that the database had.
  pub record Held (hash : String) (old : RefreshTokenModel) (w : W) : Type 0 where
    pub row : t.row w old.id ≡ some old
    pub active : is_active hash (t.time w) old ≡ true
    pub key : IsKey r old.id
    pub owner_key : IsKey r old.user_id

  -- An exchange: the token `old` of the presented text was retired, and then its owner had a new
  -- session.
  pub record Exchanged (h : AuthHandler W) (token : String) (a : ℕ × AuthResponse) (w w' : W)
      : Type 0 where
    pub old : RefreshTokenModel
    pub user : UserModel
    pub middle : W
    pub held : Held (hash_token h.crypto token) old w
    pub opened : decrypt_token h.crypto h.refresh_key old.token_ciphertext ≡ ok token
    pub owner : t.account w old.user_id ≡ some user
    pub shown : a.1.id ≡ old.user_id
    pub retired : Retired old w middle
    pub issued : Issued t old.user_id (hash_token h.crypto a.1.refresh_token) middle w'

  -- A refusal: nothing was written, or a token that was found was revoked.
  pub data Refused (hash : String) (w w' : W) : Type 0 where
    untouched : Same t w w' → Refused hash w w'
    ended : (old : RefreshTokenModel) → Held hash old w → Retired old w w' → Refused hash w w'

module _ {W : Type 0} {t : SessionTables W} {r : Runtime W} {s : RefreshTokenStore W}
    {us : UserStore W} {h : AuthHandler W} (laws : IsSessionStore t r s us h) where
  Retired-before :
      {old : RefreshTokenModel} {u v w : W}
      → Same t u v
      → Retired t r s old v w
      → Retired t r s old u w
  Retired-before same (stayed e x y before failed kept) =
      stayed e x y (Same-trans t same before) failed (Same-trans t same kept)
  Retired-before {old} same (gone n rows accounts) =
      gone n (rows ∙ ap (λ f. put f old.id (revoked n old)) same.rows) (accounts ∙ same.accounts)

  Retired-after :
      {old : RefreshTokenModel} {u v w : W}
      → Retired t r s old u v
      → Same t v w
      → Retired t r s old u w
  Retired-after (stayed e x y before failed kept) same =
      stayed e x y before failed (Same-trans t kept same)
  Retired-after (gone n rows accounts) same = gone n (same.rows ∙ rows) (same.accounts ∙ accounts)

  updated-Retired :
      {old : RefreshTokenModel} {w w' : W} (n : ℕ) {k : ℕ}
      → t.row w old.id ≡ some old
      → TokenUpdated t old.id (revoked n) w w' k
      → eqb k 0 ≡ false
      → Retired t r s old w w'
  updated-Retired {old} {w} n row (token_hit m is rows accounts) some_row =
      let same : m ≡ old = cc in
      gone n (rows ∙ ap (λ x. put (t.row w) old.id (revoked n x)) same) accounts
  updated-Retired n row (token_missed same) some_row = cc

  missed-Same :
      {id : String} {f : RefreshTokenModel → RefreshTokenModel} {w w' : W} {k : ℕ}
      → TokenUpdated t id f w w' k
      → eqb k 0 ≡ true
      → Same t w w'
  missed-Same (token_hit m is rows accounts) no_row = cc
  missed-Same (token_missed same) no_row = same

  revoke-Retired :
      (old : RefreshTokenModel) (w : W)
      → IsKey r old.id
      → t.row w old.id ≡ some old
      → Ensures (λ _ w'. Retired t r s old w w') (λ _ w'. Same t w w') (revoke r s old.id w)
  unfolding revoke revoked
  revoke-Retired old w key row = rw key (
      let same = laws.now_law w in
      Ensures-bind (s.update_token old.id (revoked (r.now w).0)) _ (r.now w).1
        (laws.update_token_law old.id (revoked (r.now w).0) (r.now w).1 key (λ m. refl))
        (λ k w1 updated.
          Ensures-raise_if_end (eqb k 0) record_not_found w1
            (λ no_row. Same-trans t same (missed-Same updated no_row))
            (λ some_row.
              Retired-before same (
                updated-Retired (r.now w).0 (ap (λ f. f old.id) same.rows ∙ row) updated some_row)))
        (λ e w1 kept. Same-trans t same kept))

  find_active_by_hash-Held :
      (hash : String) (w : W)
      → Ensures
          (λ tok w'.
            (old : RefreshTokenModel) × Held t r s hash old w
            × (tok ≡ to_refresh_token old)
            × Same t w w')
          (λ _ w'. Same t w w')
          (find_active_by_hash r s hash w)
  unfolding find_active_by_hash
  find_active_by_hash-Held hash w =
      Ensures-bind (s.read_active (is_active hash)) _ w (laws.read_active_law (is_active hash) w)
        (λ o w1 found. shown_token hash w o w1 found.0 found.1) (λ e w1 same. same)
    where
      shown_token :
          (hash : String) (w : W) (o : Option RefreshTokenModel) (w1 : W)
          → FoundActive t r (is_active hash) w o
          → Same t w w1
          → Ensures
              (λ tok w'.
                (old : RefreshTokenModel) × Held t r s hash old w
                × (tok ≡ to_refresh_token old)
                × Same t w w')
              (λ _ w'. Same t w w')
              (found_token r s o w1)
      shown_token hash w none w1 found_nothing same = raised same
      shown_token hash w (some m) w1 (found_active row active key owner_key) same =
          returned
            (m, record { row = row; active = active; key = key; owner_key = owner_key }, refl, same)

  -- The reply to an exchange, from the state in which the token was retired.
  answered :
      (token : String) (old : RefreshTokenModel) (w w2 : W) (u : User) (m : UserModel)
      → Held t r s (hash_token h.crypto token) old w
      → decrypt_token h.crypto h.refresh_key old.token_ciphertext ≡ ok token
      → t.account w old.user_id ≡ some m
      → u ≡ to_user m
      → m.id ≡ old.user_id
      → Retired t r s old w w2
      → Ensures
          (λ a w'. Exchanged t r s h token a w w')
          (λ _ w'. Refused t r s (hash_token h.crypto token) w w')
          (reply_with_session h 200 u w2)
  answered token old w w2 u m held opened owner is keyed retired =
      let named : u.id ≡ old.user_id = ap (λ x. x.id) is ∙ keyed in
      Ensures-mono (reply_with_session-Issued laws 200 u w2)
        (λ a w3 (shown, issued). record {
          old = old;
          user = m;
          middle = w2;
          held = held;
          opened = opened;
          owner = owner;
          shown = shown ∙ named;
          retired = retired;
          issued =
              subst (λ x. Issued t x (hash_token h.crypto a.1.refresh_token) w2 w3)
                (ap (λ x. canonical (r.parse_id x)) named ∙ ap canonical held.owner_key) issued;
        })
        (λ e w3 kept. ended old held (Retired-after retired kept))

  exchange-Exchanged :
      (token : String) (old : RefreshTokenModel) (w w1 : W)
      → Held t r s (hash_token h.crypto token) old w
      → decrypt_token h.crypto h.refresh_key old.token_ciphertext ≡ ok token
      → Same t w w1
      → Ensures
          (λ a w'. Exchanged t r s h token a w w')
          (λ _ w'. Refused t r s (hash_token h.crypto token) w w')
          (exchange h (refresh_token_repository r s) (to_refresh_token old) w1)
  unfolding exchange refresh_token_repository
  exchange-Exchanged token old w w1 held opened same =
      Ensures-bind (or_refuse (unknown_or_failed "user not found") (h.users.find_by_id old.user_id))
        _ w1
        (Ensures-or_refuse (unknown_or_failed "user not found") (h.users.find_by_id old.user_id) w1
          (find_by_id-Known laws old.user_id w1) (λ e w2 kept. kept))
        (λ u w2 (m, account, is, keyed, kept).
          let whole : Same t w w2 = Same-trans t same kept in
          let spelt = ap canonical held.owner_key in
          let owner : t.account w old.user_id ≡ some m =
            sym (ap (λ f. f old.user_id) same.accounts) ∙ ap (t.account w1) (sym spelt) ∙ account in
          let own = keyed ∙ spelt in
          Ensures-attempt (revoke r s old.id) (λ _. reply_with_session h 200 u) w2
            (Ensures-known
              (revoke-Retired old w2 held.key (ap (λ f. f old.id) whole.rows ∙ held.row)))
            (λ _ w3 (retired, _).
              answered token old w w3 u m held opened owner is own (Retired-before whole retired))
            (λ e w3 (kept, failed).
              answered token old w w3 u m held opened owner is own
                (stayed e w2 w3 whole failed (Same-trans t whole kept))))
        (λ e w2 kept. untouched (Same-trans t same kept))

  refresh_from-Exchanged :
      (token : String) (w : W)
      → Ensures
          (λ a w'. Exchanged t r s h token a w w')
          (λ _ w'. Refused t r s (hash_token h.crypto token) w w')
          (refresh_from h (refresh_token_repository r s) token w)
  unfolding refresh_from refresh_token_repository
  refresh_from-Exchanged token w =
      Ensures-bind
        (or_refuse (unknown_or_failed "invalid refresh token")
          (find_active_by_hash r s (hash_token h.crypto token)))
        _ w
        (Ensures-or_refuse (unknown_or_failed "invalid refresh token")
          (find_active_by_hash r s (hash_token h.crypto token)) w
          (find_active_by_hash-Held (hash_token h.crypto token) w) (λ e w1 same. same))
        (λ tok w1 (old, held, is, same).
          Ensures-raise_if
            (not (same_token (decrypt_token h.crypto h.refresh_key tok.token_ciphertext) token)) _ _
            w1 (λ _. untouched same)
            (λ right.
              subst
                (λ x.
                  Ensures (λ a w'. Exchanged t r s h token a w w')
                    (λ _ w'. Refused t r s (hash_token h.crypto token) w w')
                    (exchange h (refresh_token_repository r s) x w1))
                (sym is)
                (exchange-Exchanged token old w w1 held
                  (same_token-ok _ token (
                    subst
                      (λ x.
                        same_token (decrypt_token h.crypto h.refresh_key x.token_ciphertext) token
                        ≡ true)
                      is (true_of_not _ right)))
                  same)))
        (λ e w1 same. untouched same)

  -- Where Refresh answers, the presented token was stored, neither revoked nor expired, and its
  -- ciphertext opens to it; it was then revoked, unless `Revoke` failed, its owner has exactly one new
  -- token, whose hash is stored, and the reply shows the owner and that token; no other token differs.
  -- Where it refuses, no token and no account differs, but for the presented token, which may have been
  -- revoked.
  pub refresh-Exchanged :
      (token : String) (w : W)
      → Ensures
          (λ a w'. Exchanged t r s h (trim_space token) a w w')
          (λ _ w'. Refused t r s (hash_token h.crypto (trim_space token)) w w')
          (refresh h (ok token) w)
  unfolding refresh refresh_with
  refresh-Exchanged token w =
      subst
        (λ o.
          Ensures (λ a w'. Exchanged t r s h (trim_space token) a w w')
            (λ _ w'. Refused t r s (hash_token h.crypto (trim_space token)) w w')
            (refresh_with h o (ok token) w))
        (sym laws.wired_law)
        (Ensures-raise_if (is_empty (trim_space token)) _ _ w (λ _. untouched (Same-refl t w))
          (λ _. refresh_from-Exchanged (trim_space token) w))
