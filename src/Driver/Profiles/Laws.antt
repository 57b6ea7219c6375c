-- ===== src/Driver/Profiles/Laws.antt =====
-- What backend/internal/db/driver_repository.go relies on, over the profiles and the vehicles that the
-- database holds.
use uitgo_monorepo.Base.{ℕ, String, ◌≡◌, refl, ◌∙◌, Option, none, some, put, removed}
use uitgo_monorepo.Errors.{driver_not_found}
use uitgo_monorepo.Base.Action.{ok}
use uitgo_monorepo.Base.Action.Ensures.{Ensures}
use uitgo_monorepo.Trip.Store.{Runtime}
use uitgo_monorepo.Driver.Profiles.Rows.{DriverModel, VehicleModel, DriverStatusModel, DriverStore}

-- The profiles by their ids, and the vehicles by the ids of their drivers.
pub record ProfileTables (W : Type 0) : Type 0 where
  pub profile : W → String → Option DriverModel
  pub vehicle : W → String → Option VehicleModel

module _ {W : Type 0} (t : ProfileTables W) where
  pub record Same (w w' : W) : Type 0 where
    pub profiles : t.profile w' ≡ t.profile w
    pub vehicles : t.vehicle w' ≡ t.vehicle w

  pub Same-refl : (w : W) → Same w w
  Same-refl w = record { profiles = refl; vehicles = refl }

  pub Same-trans : {u v w : W} → Same u v → Same v w → Same u w
  Same-trans a b = record { profiles = b.profiles ∙ a.profiles; vehicles = b.vehicles ∙ a.vehicles }

  -- No profile is the user's.
  pub record IsAbsent (user_id : String) (w : W) : Type 0 where
    pub nobody : (k : String) (m : DriverModel) → t.profile w k ≡ some m → ¬ (m.user_id ≡ user_id)

  pub data Found (user_id : String) (w : W)
      : Option (DriverModel × Option VehicleModel) → Type 0 where
    found_one :
        (m : DriverModel) (v : Option VehicleModel)
        → t.profile w m.id ≡ some m
        → m.user_id ≡ user_id
        → Found user_id w (some (m, v))
    found_none : IsAbsent user_id w → Found user_id w none

  pub record Created (m m' : DriverModel) (w w' : W) : Type 0 where
    pub is : m' ≡ m
    pub fresh : t.profile w m.id ≡ none
    pub profiles : t.profile w' ≡ put (t.profile w) m.id m
    pub vehicles : t.vehicle w' ≡ t.vehicle w

  -- A driver is deleted with its vehicle.
  pub data Deleted (id : String) (w w' : W) : ℕ → Type 0 where
    deleted_one : t.profile w' ≡ removed (t.profile w) id → Deleted id w w' 1
    deleted_none : Same w w' → Deleted id w w' 0

  pub record VehicleIs (driver_id : String) (m : VehicleModel) (w w' : W) : Type 0 where
    pub profiles : t.profile w' ≡ t.profile w
    pub vehicles : t.vehicle w' ≡ put (t.vehicle w) driver_id m

  pub data VehicleUpdated (driver_id : String) (f : VehicleModel → VehicleModel) (w w' : W)
      : ℕ → Type 0 where
    vehicle_hit :
        (m : VehicleModel)
        → t.vehicle w driver_id ≡ some m
        → VehicleIs driver_id (f m) w w'
        → VehicleUpdated driver_id f w w' 1
    vehicle_missed : t.vehicle w driver_id ≡ none → Same w w' → VehicleUpdated driver_id f w w' 0

  -- Documented behaviour of the database: a query writes nothing, a statement that fails changes
  -- nothing, a new row has a key of its own, an update changes the row that it names. A new id is in its
  -- canonical form, and no error of the database is a sentinel of the program.
  pub record IsProfileStore (r : Runtime W) (s : DriverStore W) : Type 0 where
    pub now_law : (w : W) → Same w (r.now w).1
    pub new_id_law :
        (w : W) → Same w (r.new_id w).1 × (r.parse_id (r.new_id w).0 ≡ ok (r.new_id w).0)
    pub first_driver_of_law :
        (user_id : String) (w : W)
        → Ensures
            (λ o w'. Found user_id w o × Same w w')
            (λ e w'. ¬ (e ≡ driver_not_found) × Same w w')
            (s.first_driver_of user_id w)
    pub create_driver_law :
        (m : DriverModel) (w : W)
        → Ensures (λ m' w'. Created m m' w w') (λ _ w'. Same w w') (s.create_driver m w)
    pub delete_driver_law :
        (id : String) (w : W)
        → Ensures (λ n w'. Deleted id w w' n) (λ _ w'. Same w w') (s.delete_driver id w)
    pub first_vehicle_law :
        (id : String) (w : W)
        → Ensures
            (λ o w'. (o ≡ t.vehicle w id) × Same w w')
            (λ _ w'. Same w w')
            (s.first_vehicle id w)
    pub create_vehicle_law :
        (m : VehicleModel) (w : W)
        → Ensures (λ m' w'. VehicleIs m.driver_id m w w') (λ _ w'. Same w w') (s.create_vehicle m w)
    pub update_vehicle_law :
        (id : String) (f : VehicleModel → VehicleModel) (w : W)
        → Ensures (λ n w'. VehicleUpdated id f w w' n) (λ _ w'. Same w w') (s.update_vehicle id f w)
    pub upsert_status_law :
        (m : DriverStatusModel) (w : W)
        → Ensures (λ _ w'. Same w w') (λ _ w'. Same w w') (s.upsert_status m w)
