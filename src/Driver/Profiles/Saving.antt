-- ===== src/Driver/Profiles/Saving.antt =====
-- `SaveVehicle` of backend/internal/db/driver_repository.go: the vehicle of a driver is created or
-- replaced.
use mathlib.Core.Path.{subst}
use uitgo_monorepo.Base.{ℕ, String, ◌≡◌, refl, ap, ◌∙◌, Option, none, some, put}
use uitgo_monorepo.Base.Text.{is_empty}
use uitgo_monorepo.Base.Action.{ok, checked}
use uitgo_monorepo.Base.Action.Ensures.{
  Ensures, returned, raised, Ensures-bind, Ensures-mono, Ensures-raise_if, checked-Kept,
}
use uitgo_monorepo.Http.{or_refuse, Ensures-or_refuse}
use uitgo_monorepo.Trip.Store.{Runtime}
use uitgo_monorepo.Driver.{Vehicle}
use uitgo_monorepo.Driver.Profiles.Rows.{VehicleModel, DriverStore, vehicle_row, edited}
use uitgo_monorepo.Driver.Profiles.{
  save_vehicle, put_vehicle, create_vehicle, update_vehicle, reread_vehicle, vehicle_error,
}
use uitgo_monorepo.Driver.Profiles.Laws.{
  ProfileTables, Same, Same-trans, VehicleIs, VehicleUpdated, vehicle_hit, vehicle_missed,
  IsProfileStore,
}

-- The fields that a row takes from a vehicle.
pub record IsCopy (v : Vehicle) (driver_id : String) (m : VehicleModel) : Type 0 where
  pub make : m.make ≡ v.make
  pub model : m.model ≡ v.model
  pub color : m.color ≡ v.color
  pub year : m.year ≡ v.year
  pub plate_number : m.plate_number ≡ v.plate_number

module _ {W : Type 0} {t : ProfileTables W} {r : Runtime W} {s : DriverStore W}
    (laws : IsProfileStore t r s) where
  -- The row of the driver is now a copy of the vehicle.
  pub record Saved (v : Vehicle) (driver_id : String) (w w' : W) : Type 0 where
    pub row : VehicleModel
    pub copy : IsCopy v driver_id row
    pub is : VehicleIs t driver_id row w w'

  Saved-before :
      {v : Vehicle} {uid : String} {u w w' : W} → Same t u w → Saved v uid w w' → Saved v uid u w'
  Saved-before {uid} same saved = record {
    row = saved.row;
    copy = saved.copy;
    is = record {
      profiles = saved.is.profiles ∙ same.profiles;
      vehicles = saved.is.vehicles ∙ ap (λ f. put f uid saved.row) same.vehicles;
    };
  }

  updated_profiles :
      {uid : String} {f : VehicleModel → VehicleModel} {w w' : W} {k : ℕ}
      → VehicleUpdated t uid f w w' k
      → t.profile w' ≡ t.profile w
  updated_profiles (vehicle_hit m was is) = is.profiles
  updated_profiles (vehicle_missed was kept) = kept.profiles

  create_vehicle-Saved :
      (uid : String) (v : Vehicle) (w : W)
      → Ensures
          (λ _ w'. Saved v uid w w')
          (λ _ w'. t.profile w' ≡ t.profile w)
          (create_vehicle r s uid v w)
  unfolding create_vehicle
  create_vehicle-Saved uid v w =
      let row = vehicle_row v (r.new_id (r.now w).1).0 uid (r.now w).0 in
      let same = Same-trans t (laws.now_law w) (laws.new_id_law (r.now w).1).0 in
      Ensures-bind (or_refuse (vehicle_error r s) (s.create_vehicle row)) _ (r.new_id (r.now w).1).1
        (Ensures-or_refuse (vehicle_error r s) (s.create_vehicle row) (r.new_id (r.now w).1).1
          (laws.create_vehicle_law row (r.new_id (r.now w).1).1) (λ e w1 kept. kept))
        (λ m w1 is. returned (record {
          row = row;
          copy = record {
            make = refl;
            model = refl;
            color = refl;
            year = refl;
            plate_number = refl;
          };
          is = record {
            profiles = is.profiles ∙ same.profiles;
            vehicles = is.vehicles ∙ ap (λ f. put f uid row) same.vehicles;
          };
        }))
        (λ e w1 (kept : Same t (r.new_id (r.now w).1).1 w1). kept.profiles ∙ same.profiles)

  -- The row is there after an update that was read again.
  reread-Saved :
      (v : Vehicle) (uid : String) (n : ℕ) {w w1 w2 : W} {k : ℕ} (o : Option VehicleModel)
      → VehicleUpdated t uid (edited v n) w w1 k
      → o ≡ t.vehicle w1 uid
      → Same t w1 w2
      → Ensures
          (λ _ w'. Saved v uid w w')
          (λ _ w'. t.profile w' ≡ t.profile w)
          (reread_vehicle r s o w2)
  unfolding reread_vehicle
  reread-Saved v uid n none (vehicle_hit m was is) found same = raised (same.profiles ∙ is.profiles)
  reread-Saved v uid n none (vehicle_missed was kept) found same =
      raised (same.profiles ∙ kept.profiles)
  reread-Saved v uid n (some x) (vehicle_hit m was is) found same = returned (record {
    row = edited v n m;
    copy = record { make = refl; model = refl; color = refl; year = refl; plate_number = refl };
    is = record { profiles = same.profiles ∙ is.profiles; vehicles = same.vehicles ∙ is.vehicles };
  })
  reread-Saved v uid n (some x) (vehicle_missed was kept) found same =
      let gone : some x ≡ none = found ∙ ap (λ f. f uid) kept.vehicles ∙ was in cc

  update_vehicle-Saved :
      (uid : String) (v : Vehicle) (w : W)
      → Ensures
          (λ _ w'. Saved v uid w w')
          (λ _ w'. t.profile w' ≡ t.profile w)
          (update_vehicle r s uid v w)
  unfolding update_vehicle
  update_vehicle-Saved uid v w =
      let n = (r.now w).0 in
      let same = laws.now_law w in
      Ensures-bind (or_refuse (vehicle_error r s) (s.update_vehicle uid (edited v n))) _ (r.now w).1
        (Ensures-or_refuse (vehicle_error r s) (s.update_vehicle uid (edited v n)) (r.now w).1
          (laws.update_vehicle_law uid (edited v n) (r.now w).1) (λ e w1 kept. kept))
        (λ k w1 updated.
          Ensures-bind (s.first_vehicle uid) _ w1 (laws.first_vehicle_law uid w1)
            (λ o w2 (found, kept).
              Ensures-mono (reread-Saved v uid n o updated found kept)
                (λ _ w3 saved. Saved-before same saved) (λ e w3 profiles. profiles ∙ same.profiles))
            (λ e w2 kept. kept.profiles ∙ updated_profiles updated ∙ same.profiles))
        (λ e w1 (kept : Same t (r.now w).1 w1). kept.profiles ∙ same.profiles)

  put_vehicle-Saved :
      (uid : String) (v : Vehicle) (o : Option VehicleModel) (w : W)
      → Ensures
          (λ _ w'. Saved v uid w w')
          (λ _ w'. t.profile w' ≡ t.profile w)
          (put_vehicle r s uid v o w)
  unfolding put_vehicle
  put_vehicle-Saved uid v none w = create_vehicle-Saved uid v w
  put_vehicle-Saved uid v (some m) w = update_vehicle-Saved uid v w

  -- `SaveVehicle` leaves the driver with a copy of the vehicle; where it fails, no profile differs.
  pub save_vehicle-Saved :
      (v : Vehicle) (w : W)
      → Ensures
          (λ _ w'. (uid : String) × (r.parse_id v.driver_id ≡ ok uid) × Saved v uid w w')
          (λ _ w'. t.profile w' ≡ t.profile w)
          (save_vehicle r s v w)
  unfolding save_vehicle
  save_vehicle-Saved v w =
      Ensures-raise_if (is_empty v.driver_id) _ _ w (λ _. refl)
        (λ _.
          Ensures-bind (checked (r.parse_id v.driver_id)) _ w
            (checked-Kept (r.parse_id v.driver_id) w)
            (λ uid w1 (is, at).
              Ensures-bind (or_refuse (vehicle_error r s) (s.first_vehicle uid)) _ w1
                (Ensures-or_refuse (vehicle_error r s) (s.first_vehicle uid) w1
                  (laws.first_vehicle_law uid w1) (λ e w2 kept. kept))
                (λ o w2 (found, kept).
                  let whole : Same t w w2 = subst (λ x. Same t x w2) at kept in
                  Ensures-mono (put_vehicle-Saved uid v o w2)
                    (λ _ w3 saved. (uid, is, Saved-before whole saved))
                    (λ e w3 profiles. profiles ∙ whole.profiles))
                (λ e w2 (kept : Same t w1 w2). kept.profiles ∙ ap t.profile at))
            (λ e w1 at. ap t.profile at))
