-- ===== src/Auth/Sessions/Accounts.antt =====
-- The lookups of accounts that backend/internal/http/handlers/auth.go makes, in the repository of
-- backend/internal/domain/user_repo.go.
use mathlib.Core.Path.{subst}
use uitgo_monorepo.Base.{String, ◌≡◌, refl, sym, ap, ◌∙◌, Option, none, some}
use uitgo_monorepo.Base.Text.{to_lower}
use uitgo_monorepo.Errors.{Error, record_not_found}
use uitgo_monorepo.Base.Action.{Result, ok, err, checked}
use uitgo_monorepo.Base.Action.Ensures.{Ensures, returned, raised, Ensures-bind, checked-Kept}
use uitgo_monorepo.Http.{refused}
use uitgo_monorepo.Trip.Store.{Runtime, canonical}
use uitgo_monorepo.Auth.{User}
use uitgo_monorepo.Auth.Users.{
  UserModel, UserStore, to_user, found_user, find_by_email, find_by_id, user_repository,
}
use uitgo_monorepo.Auth.Tokens.{RefreshTokenStore}
use uitgo_monorepo.Auth.Handlers.{AuthHandler}
use uitgo_monorepo.Auth.Sessions.{SessionTables, Same, IsKey, IsSessionStore, Same-refl}

refused-ok : {A : Type 0} (f : Error → Error) (x : Result A) {a : A} → refused f x ≡ ok a → x ≡ ok a
refused-ok f (ok b) h = h
refused-ok f (err e) h = cc

module _ {W : Type 0} {t : SessionTables W} {r : Runtime W} {s : RefreshTokenStore W}
    {us : UserStore W} {h : AuthHandler W} (laws : IsSessionStore t r s us h) where
  -- The row of an address, and the account that is made of it.
  abbrev pub Named : String → W → User → W → Type 0
  Named email w u w' =
      (m : UserModel) × (t.named w (to_lower email) ≡ some m)
      × (u ≡ to_user m)
      × IsKey r m.id
      × Same t w w'

  find_by_email-row :
      (email : String) (w : W)
      → Ensures (Named email w) (λ _ w'. Same t w w') (find_by_email r us email w)
  unfolding find_by_email found_user
  find_by_email-row email w =
      Ensures-bind (us.read_by_email (to_lower email)) _ w
        (laws.read_by_email_law (to_lower email) w)
        (λ o w1 (is, keyed, same). shown o w1 is keyed same) (λ e w1 same. same)
    where
      shown :
          (o : Option UserModel) (w1 : W)
          → o ≡ t.named w (to_lower email)
          → ((m : UserModel) → o ≡ some m → IsKey r m.id)
          → Same t w w1
          → Ensures (Named email w) (λ _ w'. Same t w w') (found_user r us o w1)
      shown none w1 is keyed same = raised same
      shown (some m) w1 is keyed same = returned (m, sym is, refl, keyed m refl, same)

  pub find_by_email-Named :
      (email : String) (w : W)
      → Ensures (Named email w) (λ _ w'. Same t w w') (h.users.find_by_email email w)
  unfolding user_repository
  find_by_email-Named email w =
      subst (λ users. Ensures (Named email w) (λ _ w'. Same t w w') (users.find_by_email email w))
        (sym laws.users_law) (find_by_email-row email w)

  -- The row of the id that a text spells, and the account that is made of it.
  abbrev pub Known : String → W → User → W → Type 0
  Known id w u w' =
      (m : UserModel) × (t.account w (canonical (r.parse_id id)) ≡ some m)
      × (u ≡ to_user m)
      × (m.id ≡ canonical (r.parse_id id))
      × Same t w w'

  find_by_id-row :
      (id : String) (w : W) → Ensures (Known id w) (λ _ w'. Same t w w') (find_by_id r us id w)
  unfolding find_by_id found_user
  find_by_id-row id w =
      Ensures-bind (checked (refused (λ e. record_not_found) (r.parse_id id))) _ w
        (checked-Kept (refused (λ e. record_not_found) (r.parse_id id)) w)
        (λ key w1 (parsed, is).
          let spelt = refused-ok _ (r.parse_id id) parsed in
          let same : Same t w w1 = subst (Same t w) (sym is) (Same-refl t w) in
          Ensures-bind (us.read_by_id key) _ w1
            (laws.read_by_id_law key w1 (laws.parse_law id key spelt))
            (λ o w2 (found, keyed, same2). shown key spelt o w1 w2 is found keyed same2)
            (λ e w2 same2. subst (λ x. Same t x w2) is same2))
        (λ e w1 is. subst (Same t w) (sym is) (Same-refl t w))
    where
      shown :
          (key : String)
          → r.parse_id id ≡ ok key
          → (o : Option UserModel) (w1 w2 : W) → w1 ≡ w
          → o ≡ t.account w1 key
          → ((m : UserModel) → o ≡ some m → m.id ≡ key)
          → Same t w1 w2
          → Ensures (Known id w) (λ _ w'. Same t w w') (found_user r us o w2)
      shown key spelt none w1 w2 is found keyed same = raised (subst (λ x. Same t x w2) is same)
      shown key spelt (some m) w1 w2 is found keyed same =
          let at = ap canonical spelt in
          returned (
            m,
            ap (λ k. t.account w k) at ∙ ap (λ x. t.account x key) (sym is) ∙ sym found,
            refl,
            keyed m refl ∙ sym at,
            subst (λ x. Same t x w2) is same,
          )

  pub find_by_id-Known :
      (id : String) (w : W) → Ensures (Known id w) (λ _ w'. Same t w w') (h.users.find_by_id id w)
  unfolding user_repository
  find_by_id-Known id w =
      subst (λ users. Ensures (Known id w) (λ _ w'. Same t w w') (users.find_by_id id w))
        (sym laws.users_law) (find_by_id-row id w)
