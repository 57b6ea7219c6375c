-- ===== src/Driver/Profiles/Creating.antt =====
-- `Create`, `DeleteByID` and `FindByUserID` of backend/internal/db/driver_repository.go on the profiles.
use mathlib.Core.Path.{subst}
use uitgo_monorepo.Base.{
  ℕ, String, ◌≡◌, sym, ap, ◌∙◌, true, false, Option, none, some, put, removed, eqb, inl, inr,
}
use uitgo_monorepo.Errors.{driver_not_found}
use uitgo_monorepo.Base.Action.{Result, ok, checked}
use uitgo_monorepo.Base.Action.Ensures.{
  Ensures, returned, raised, Ensures-bind, Ensures-mono, Ensures-raise_if_end, checked-Kept,
  Result-cases,
}
use uitgo_monorepo.Http.{or_refuse, Ensures-or_refuse}
use uitgo_monorepo.Trip.Store.{Runtime}
use uitgo_monorepo.Driver.{Driver}
use uitgo_monorepo.Driver.Profiles.Rows.{
  DriverModel, VehicleModel, DriverStore, driver_row, not_created,
}
use uitgo_monorepo.Driver.Profiles.{driver_uid, find_by_user_id, found_driver, create, delete_by_id}
use uitgo_monorepo.Driver.Profiles.Laws.{
  ProfileTables, Same, Same-refl, Same-trans, IsAbsent, Found, found_none, Created, Deleted,
  deleted_one, deleted_none, IsProfileStore,
}

module _ {W : Type 0} (t : ProfileTables W) (r : Runtime W) where
  -- What `Create` of the repository has done: the row of the driver, under an id of its own.
  pub record NewProfile (d d' : Driver) (w w' : W) : Type 0 where
    pub uid : String
    pub id : String
    pub now : ℕ
    pub parsed : r.parse_id d.user_id ≡ ok uid
    pub named : r.parse_id id ≡ ok id
    pub shown : d'.id ≡ id
    pub fresh : t.profile w id ≡ none
    pub profiles : t.profile w' ≡ put (t.profile w) id (driver_row d id uid now)
    pub vehicles : t.vehicle w' ≡ t.vehicle w

module _ {W : Type 0} {t : ProfileTables W} {r : Runtime W} {s : DriverStore W}
    (laws : IsProfileStore t r s) where
  -- What was found of a user of an id that parses.
  Found-IsAbsent :
      (uid : String) (w : W) (o : Option (DriverModel × Option VehicleModel)) (w1 : W)
      → Found t uid w o
      → Same t w w1
      → Ensures
          (λ _ w'. Same t w w')
          (λ e w'. (e ≡ driver_not_found → IsAbsent t uid w) × Same t w w')
          (found_driver r s o w1)
  unfolding found_driver
  Found-IsAbsent uid w none w1 (found_none absent) same = raised ((λ _. absent), same)
  Found-IsAbsent uid w (some x) w1 found same = returned same

  find_by_user_id-IsAbsent :
      (user_id uid : String) (w : W)
      → r.parse_id user_id ≡ ok uid
      → Ensures
          (λ _ w'. Same t w w')
          (λ e w'. (e ≡ driver_not_found → IsAbsent t uid w) × Same t w w')
          (find_by_user_id r s user_id w)
  unfolding find_by_user_id driver_uid
  find_by_user_id-IsAbsent user_id uid w parsed = rw parsed (
      Ensures-bind (s.first_driver_of uid) _ w (laws.first_driver_of_law uid w)
        (λ o w1 (found, same). Found-IsAbsent uid w o w1 found same)
        (λ e w1 (other, same). ((λ is. elim (other is) [ ]), same)))

  pub delete_by_id-removed :
      (id : String) (w : W)
      → r.parse_id id ≡ ok id
      → Ensures
          (λ _ w'. t.profile w' ≡ removed (t.profile w) id)
          (λ _ w'. t.profile w' ≡ t.profile w)
          (delete_by_id r s id w)
  unfolding delete_by_id driver_uid
  delete_by_id-removed id w parsed = rw parsed (
      Ensures-bind (s.delete_driver id) _ w (laws.delete_driver_law id w)
        (λ n w1 deleted.
          Ensures-raise_if_end (eqb n 0) driver_not_found w1
            (λ none_left. none_deleted deleted none_left)
            (λ some_left. one_deleted deleted some_left))
        (λ e w1 (same : Same t w w1). same.profiles))
    where
      none_deleted :
          {id : String} {w w1 : W} {n : ℕ}
          → Deleted t id w w1 n
          → eqb n 0 ≡ true
          → t.profile w1 ≡ t.profile w
      none_deleted (deleted_one profiles) h = cc
      none_deleted (deleted_none same) h = same.profiles

      one_deleted :
          {id : String} {w w1 : W} {n : ℕ}
          → Deleted t id w w1 n
          → eqb n 0 ≡ false
          → t.profile w1 ≡ removed (t.profile w) id
      one_deleted (deleted_one profiles) h = profiles
      one_deleted (deleted_none same) h = cc

  pub looked_up :
      (user_id : String) (w : W)
      → Ensures
          (λ _ w'. Same t w w')
          (λ e w'.
            (e ≡ driver_not_found → (uid : String) → r.parse_id user_id ≡ ok uid → IsAbsent t uid w)
            × Same t w w')
          (find_by_user_id r s user_id w)
  unfolding find_by_user_id driver_uid
  looked_up user_id w = elim (Result-cases (r.parse_id user_id)) [
    | inl (uid, parsed) ↦
        Ensures-mono (find_by_user_id-IsAbsent user_id uid w parsed) (λ _ w1 same. same)
          (λ e w1 (absent, same). (
            (λ missing other is.
                let e : ◌≡◌ {A = Result String} (ok uid) (ok other) = sym parsed ∙ is in
                let one : uid ≡ other = cc in subst (λ x. IsAbsent t x w) one (absent missing)),
            same,
          ))
    | inr (e, bad) ↦ rw bad (raised ((λ missing uid is. cc), Same-refl t w))
  ]

  pub create-NewProfile :
      (d : Driver) (w : W)
      → Ensures (λ d' w'. NewProfile t r d d' w w') (λ _ w'. Same t w w') (create r s d w)
  unfolding create
  create-NewProfile d w =
      Ensures-bind (checked (r.parse_id d.user_id)) _ w (checked-Kept (r.parse_id d.user_id) w)
        (λ uid w1 (parsed, at).
          let n = (r.now w1).0 in
          let w2 = (r.now w1).1 in
          let id = (r.new_id w2).0 in
          let w3 = (r.new_id w2).1 in
          let row = driver_row d id uid n in
          let before : Same t w w3 =
            subst (λ x. Same t x w3) at (Same-trans t (laws.now_law w1) (laws.new_id_law w2).0) in
          Ensures-bind (or_refuse not_created (s.create_driver row)) _ w3
            (Ensures-or_refuse not_created (s.create_driver row) w3 (laws.create_driver_law row w3)
              (λ e w4 kept. kept))
            (λ m w4 (made : Created t row m w3 w4). returned (record {
              uid = uid;
              id = id;
              now = n;
              parsed = parsed;
              named = (laws.new_id_law w2).1;
              shown = ap (λ (x : DriverModel). x.id) made.is;
              fresh = ap (λ f. f id) (sym before.profiles) ∙ made.fresh;
              profiles = made.profiles ∙ ap (λ f. put f id row) before.profiles;
              vehicles = made.vehicles ∙ before.vehicles;
            }))
            (λ e w4 kept. Same-trans t before kept))
        (λ e w1 at. subst (λ x. Same t x w1) at (Same-refl t w1))

  pub NewProfile-before :
      {d d' : Driver} {u w w' : W}
      → Same t u w
      → NewProfile t r d d' w w'
      → NewProfile t r d d' u w'
  NewProfile-before {d} same new = record {
    uid = new.uid;
    id = new.id;
    now = new.now;
    parsed = new.parsed;
    named = new.named;
    shown = new.shown;
    fresh = ap (λ f. f new.id) (sym same.profiles) ∙ new.fresh;
    profiles =
        new.profiles ∙ ap (λ f. put f new.id (driver_row d new.id new.uid new.now)) same.profiles;
    vehicles = new.vehicles ∙ same.vehicles;
  }
