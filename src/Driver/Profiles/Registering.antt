-- ===== src/Driver/Profiles/Registering.antt =====
-- `Register` of backend/internal/domain/driver_service.go over the repository of the drivers.
use mathlib.Core.Path.{subst}
use uitgo_monorepo.Base.{ℕ, String, ◌≡◌, refl, sym, ap, ◌∙◌, false, Option, none, put}
use uitgo_monorepo.Base.Text.{is_empty, trim_space}
use uitgo_monorepo.Errors.{Error, driver_not_found}
use uitgo_monorepo.Base.Action.{ok, err, checked, pure, attempt, Action, ◌>>=◌, ◌>>◌}
use uitgo_monorepo.Base.Action.Ensures.{
  Ensures, returned, raised, Ensures-bind, Ensures-raise_if, Ensures-attempt, checked-Kept,
}
use uitgo_monorepo.Trip.Store.{Runtime}
use uitgo_monorepo.Driver.{Vehicle, Driver, offline}
use uitgo_monorepo.Driver.Service.{
  DriverService, DriverRegistrationInput, register, check_absent, save_new_vehicle, new_driver,
  five_stars, with_offline,
}
use uitgo_monorepo.Driver.Profiles.Rows.{
  DriverModel, DriverStatusModel, DriverStore, driver_row, is_zero,
}
use uitgo_monorepo.Driver.Profiles.{driver_repository, find_by_user_id, create, set_availability}
use uitgo_monorepo.Driver.Profiles.Laws.{
  ProfileTables, Same, Same-refl, Same-trans, IsAbsent, IsProfileStore,
}
use uitgo_monorepo.Driver.Profiles.Creating.{
  NewProfile, NewProfile-before, create-NewProfile, looked_up,
}
use uitgo_monorepo.Driver.Profiles.Equipping.{
  Equipped, on_foot, driving, Unregistered, unregistered, over, Ready, save_new_vehicle-Ready,
}

-- The profile that a registration makes for the user `user_id`.
pub record IsProfile (input : DriverRegistrationInput) (user_id : String) (m : DriverModel)
    : Type 0 where
  pub user : m.user_id ≡ user_id
  pub full_name : m.full_name ≡ trim_space input.full_name
  pub named : is_empty m.full_name ≡ false
  pub phone : m.phone ≡ trim_space input.phone
  pub license_number : m.license_number ≡ trim_space input.license_number
  pub avatar_url : m.avatar_url ≡ input.avatar_url
  pub rating : m.rating ≡ five_stars

module _ {W : Type 0} (t : ProfileTables W) (r : Runtime W) (s : DriverStore W) where
  -- A registration: a user who had no profile has a new one, and no other profile differs.
  pub record Registered (user_id : String) (input : DriverRegistrationInput) (d : Driver) (w w' : W)
      : Type 0 where
    pub row : DriverModel
    pub uid : String
    pub parsed : r.parse_id user_id ≡ ok uid
    pub absent : IsAbsent t uid w
    pub is : IsProfile input uid row
    pub shown : d.id ≡ row.id
    pub fresh : t.profile w row.id ≡ none
    pub profiles : t.profile w' ≡ put (t.profile w) row.id row
    pub equipped : Equipped t row.id w w' input.vehicle

module _ {W : Type 0} {t : ProfileTables W} {r : Runtime W} {s : DriverStore W}
    (laws : IsProfileStore t r s) where
  nobody_found :
      (service : DriverService W) (e : Error) (w : W)
      → Ensures
          (λ _ w'. (e ≡ driver_not_found) × (w' ≡ w))
          (λ _ w'. w' ≡ w)
          (check_absent (over r s service) (err e) w)
  unfolding check_absent
  nobody_found service driver_not_found w = returned (refl, refl)
  nobody_found service e w = raised refl

  set_availability-Same :
      (id : String) (w : W)
      → Ensures (λ _ w'. Same t w w') (λ _ w'. Same t w w') (set_availability r s id offline w)
  unfolding set_availability
  set_availability-Same id w =
      Ensures-bind (checked (r.parse_id id)) _ w (checked-Kept (r.parse_id id) w)
        (λ uid w1 (parsed, at).
          let row : DriverStatusModel = record {
            driver_id = uid;
            status = offline;
            updated_at = (r.now w1).0;
          } in
          let before : Same t w (r.now w1).1 =
            subst (λ x. Same t x (r.now w1).1) at (laws.now_law w1) in
          Ensures-bind (s.upsert_status row) _ (r.now w1).1
            (laws.upsert_status_law row (r.now w1).1)
            (λ _ w2 kept. returned (Same-trans t before kept))
            (λ e w2 kept. Same-trans t before kept))
        (λ e w1 at. subst (λ x. Same t x w1) at (Same-refl t w1))

  is_profile :
      (input : DriverRegistrationInput) (user_id id uid : String) (now : ℕ)
      → is_empty (trim_space input.full_name) ≡ false
      → IsProfile input uid
          (driver_row (new_driver user_id (trim_space input.full_name) input) id uid now)
  unfolding is_zero
  is_profile input user_id id uid now named = record {
    user = refl;
    full_name = refl;
    named = named;
    phone = refl;
    license_number = refl;
    avatar_url = refl;
    rating = refl;
  }

  equipped_after :
      {id : String} {u v v' : W} {x : Option Vehicle}
      → Equipped t id u v x
      → t.vehicle v' ≡ t.vehicle v
      → Equipped t id u v' x
  equipped_after (on_foot is) same = on_foot (same ∙ is)
  equipped_after (driving m clean is) same = driving m clean (same ∙ is)

  registered :
      (user_id : String) (input : DriverRegistrationInput) {d d' d'' : Driver} {w w1 w2 w3 : W}
      → is_empty (trim_space input.full_name) ≡ false
      → ((uid : String) → r.parse_id user_id ≡ ok uid → IsAbsent t uid w)
      → (new : NewProfile t r (new_driver user_id (trim_space input.full_name) input) d w w1)
      → Ready t r s d' input.vehicle new.id
          (driver_row
            (new_driver user_id (trim_space input.full_name) input)
            new.id
            new.uid
            new.now)
          w
          w2
      → Same t w2 w3
      → d''.id ≡ d'.id
      → Registered t r s user_id input d'' w w3
  registered user_id input named absent new ready same id = record {
    row = driver_row (new_driver user_id (trim_space input.full_name) input) new.id new.uid new.now;
    uid = new.uid;
    parsed = new.parsed;
    absent = absent new.uid new.parsed;
    is = is_profile input user_id new.id new.uid new.now named;
    shown = id ∙ ready.same_id;
    fresh = new.fresh;
    profiles = same.profiles ∙ ready.profiles;
    equipped = equipped_after ready.equipped same.vehicles;
  }

  -- The rest of `Register` after the user was found to have no profile.
  abbrev enrolment : DriverService W → String → DriverRegistrationInput → Action W Driver
  enrolment service user_id input = do
    created ← create r s (new_driver user_id (trim_space input.full_name) input)
    driver ← save_new_vehicle (over r s service) created input.vehicle
    status ← attempt (set_availability r s driver.id offline)
    pure (with_offline (over r s service) driver status)

  enrolled :
      (user_id : String) (input : DriverRegistrationInput) (service : DriverService W) (u w : W)
      → is_empty (trim_space input.full_name) ≡ false
      → ((uid : String) → r.parse_id user_id ≡ ok uid → IsAbsent t uid u)
      → Same t u w
      → Ensures
          (λ d w'. Registered t r s user_id input d u w')
          (λ e w'. Unregistered t r s u w')
          (enrolment service user_id input w)
  unfolding with_offline
  enrolled user_id input service u w named absent before =
      Ensures-bind (create r s (new_driver user_id (trim_space input.full_name) input)) _ w
        (create-NewProfile laws (new_driver user_id (trim_space input.full_name) input) w)
        (λ d w1 made.
          let new = NewProfile-before laws before made in
          Ensures-bind (save_new_vehicle (over r s service) d input.vehicle) _ w1
            (save_new_vehicle-Ready laws d service input.vehicle new)
            (λ d' w2 ready.
              Ensures-attempt (set_availability r s d'.id offline)
                (λ x. pure (with_offline (over r s service) d' x)) w2
                (set_availability-Same d'.id w2)
                (λ status w3 same.
                  returned (registered user_id input named absent new ready same refl))
                (λ e w3 same. returned (registered user_id input named absent new ready same refl)))
            (λ e w2 failed. failed))
        (λ e w1 (same : Same t w w1). unregistered (same.profiles ∙ before.profiles))

  -- Where Register returns, the user had no profile and has a new one with the trimmed fields and five
  -- stars, the vehicle if one was given is the driver's, trimmed, and no other profile or vehicle
  -- differs. Where it fails, no profile differs, unless the new one could not be deleted again.
  pub register-Registered :
      (service : DriverService W) (user_id : String) (input : DriverRegistrationInput) (w : W)
      → Ensures
          (λ d w'. Registered t r s user_id input d w w')
          (λ e w'. Unregistered t r s w w')
          (register (over r s service) user_id input w)
  unfolding register driver_repository check_absent
  register-Registered service user_id input w =
      Ensures-raise_if (is_empty user_id) _ _ w (λ _. unregistered refl)
        (λ _.
          Ensures-raise_if (is_empty (trim_space input.full_name)) _ _ w (λ _. unregistered refl)
            (λ named.
              Ensures-attempt (find_by_user_id r s user_id)
                (λ x. check_absent (over r s service) x >> enrolment service user_id input) w
                (looked_up laws user_id w) (λ d w1 same. raised (unregistered same.profiles))
                (λ e w1 (absent, same).
                  Ensures-bind (check_absent (over r s service) (err e)) _ w1
                    (nobody_found service e w1)
                    (λ _ w2 (missing, at).
                      enrolled user_id input service w w2 named (absent missing)
                        (subst (λ x. Same t w x) (sym at) same))
                    (λ e' w2 at. unregistered (ap t.profile at ∙ same.profiles)))))
