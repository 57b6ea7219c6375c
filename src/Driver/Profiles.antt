-- ===== src/Driver/Profiles.antt =====
-- backend/internal/db/driver_repository.go over the statements that it runs.
pub mod Laws
pub mod Saving
pub mod Creating
pub mod Equipping
pub mod Registering
mod Tests
pub mod Rows
use uitgo_monorepo.Base.{
  ℕ, String, Bool, ◌||◌, Option, none, some, List, [], ◌∷◌, eqb, if◌then◌else◌,
}
use uitgo_monorepo.Base.Int.{ℤ}
use uitgo_monorepo.Base.Text.{is_empty}
use uitgo_monorepo.Errors.{
  Error, message, record_not_found, driver_not_found, driver_already_exists, vehicle_already_exists,
  is_duplicated_key,
}
use uitgo_monorepo.Base.Action.{Action, pure, raise, always, raise_if, checked, ◌>>=◌, ◌>>◌}
use uitgo_monorepo.Http.{refused, or_refuse}
use uitgo_monorepo.Trip.{Float64}
use uitgo_monorepo.Trip.Store.{Runtime}
use uitgo_monorepo.Driver.{
  DriverAvailability, online, Vehicle, DriverStatus, DriverLocation, Driver, DriverRepository,
  TripAssignmentStatus,
}
use uitgo_monorepo.Driver.Service.{five_stars}
use uitgo_monorepo.Driver.Profiles.Rows.{
  DriverModel, VehicleModel, DriverStatusModel, DriverLocationModel, DriverStore, to_vehicle,
  to_vehicles, to_driver, to_driver_status, to_driver_location, is_zero, driver_row, vehicle_row,
  location_row, edited, renewed, not_created,
}

module _ {W : Type 0} (r : Runtime W) (s : DriverStore W) where
  -- `wrapDuplicateVehicleError`
  unfoldable pub vehicle_error : Error → Error
  vehicle_error e =
      if is_duplicated_key e || s.is_unique_violation e then vehicle_already_exists else e

  -- An id that does not parse is nobody's.
  unfoldable pub driver_uid : String → Action W String
  driver_uid id = or_refuse (λ e. driver_not_found) (checked (r.parse_id id))

  unfoldable pub create : Driver → Action W Driver
  create driver = do
    user_uid ← checked (r.parse_id driver.user_id)
    now ← always r.now
    id ← always r.new_id
    model ← or_refuse not_created (s.create_driver (driver_row driver id user_uid now))
    pure (record driver {
      id = model.id;
      created_at = model.created_at;
      updated_at = model.updated_at;
      rating = model.rating;
    })

  unfoldable pub found_driver : Option (DriverModel × Option VehicleModel) → Action W Driver
  found_driver none = raise driver_not_found
  found_driver (some (m, vehicle)) = pure (to_driver m vehicle)

  unfoldable pub find_by_id : String → Action W Driver
  find_by_id id = do uid ← driver_uid id; found ← s.first_driver uid; found_driver found

  unfoldable pub find_by_user_id : String → Action W Driver
  find_by_user_id user_id = do
    uid ← driver_uid user_id
    found ← s.first_driver_of uid
    found_driver found

  unfoldable pub delete_by_id : String → Action W (Unit {0})
  delete_by_id driver_id = do
    uid ← driver_uid driver_id
    deleted ← s.delete_driver uid
    raise_if (eqb deleted 0) driver_not_found

  candidate : Option String → Action W (Option Driver)
  candidate none = pure none
  candidate (some id) = do driver ← find_by_id id; pure (some driver)

  unfoldable pub find_available : Action W (Option Driver)
  unfolding candidate
  find_available = do
    row ←
        s.first_available online (TripAssignmentStatus.pending ∷ TripAssignmentStatus.accepted ∷ [])
    candidate row

  unfoldable pub update : Driver → Action W (Unit {0})
  update driver = do
    raise_if (is_empty driver.id) (message "driver id required")
    uid ← checked (r.parse_id driver.id)
    now ← always r.now
    updated ← s.update_driver uid (renewed driver now)
    raise_if (eqb updated 0) driver_not_found

  unfoldable pub create_vehicle : String → Vehicle → Action W Vehicle
  create_vehicle uid vehicle = do
    now ← always r.now
    id ← always r.new_id
    model ← or_refuse vehicle_error (s.create_vehicle (vehicle_row vehicle id uid now))
    pure (to_vehicle model)

  unfoldable pub reread_vehicle : Option VehicleModel → Action W Vehicle
  reread_vehicle none = raise record_not_found
  reread_vehicle (some m) = pure (to_vehicle m)

  unfoldable pub update_vehicle : String → Vehicle → Action W Vehicle
  update_vehicle uid vehicle = do
    now ← always r.now
    changed ← or_refuse vehicle_error (s.update_vehicle uid (edited vehicle now))
    existing ← s.first_vehicle uid
    reread_vehicle existing

  unfoldable pub put_vehicle : String → Vehicle → Option VehicleModel → Action W Vehicle
  put_vehicle uid vehicle none = create_vehicle uid vehicle
  put_vehicle uid vehicle (some existing) = update_vehicle uid vehicle

  unfoldable pub save_vehicle : Vehicle → Action W Vehicle
  save_vehicle vehicle = do
    raise_if (is_empty vehicle.driver_id) (message "vehicle driver id required")
    uid ← checked (r.parse_id vehicle.driver_id)
    existing ← or_refuse vehicle_error (s.first_vehicle uid)
    put_vehicle uid vehicle existing

  unfoldable pub find_vehicle : String → Action W (Option Vehicle)
  find_vehicle driver_id = do
    uid ← checked (r.parse_id driver_id)
    found ← s.first_vehicle uid
    pure (to_vehicles found)

  unfoldable pub set_availability : String → DriverAvailability → Action W DriverStatus
  set_availability driver_id availability = do
    uid ← checked (r.parse_id driver_id)
    now ← always r.now
    s.upsert_status (record { driver_id = uid; status = availability; updated_at = now })
    pure (record { driver_id = driver_id; availability = availability; updated_at = now })

  shown_status : String → Option DriverStatusModel → Option DriverStatus
  shown_status driver_id none = none
  shown_status driver_id (some m) = some (to_driver_status m driver_id)

  unfoldable pub get_availability : String → Action W (Option DriverStatus)
  unfolding shown_status
  get_availability driver_id = do
    uid ← checked (r.parse_id driver_id)
    found ← s.first_status uid
    pure (shown_status driver_id found)

  unfoldable pub time_or_now : ℕ → Action W ℕ
  time_or_now at = if eqb at 0 then always r.now else pure at

  -- The given location is filled in.
  unfoldable pub record_location : String → DriverLocation → Action W DriverLocation
  record_location driver_id location = do
    uid ← checked (r.parse_id driver_id)
    at ← time_or_now location.recorded_at
    id ← always r.new_id
    s.create_location (location_row location id uid at)
    pure (record location { id = id; driver_id = driver_id; recorded_at = at })

  shown_location : Option DriverLocationModel → Option DriverLocation
  shown_location none = none
  shown_location (some m) = some (to_driver_location m)

  unfoldable pub latest_location : String → Action W (Option DriverLocation)
  unfolding shown_location
  latest_location driver_id = do
    uid ← checked (r.parse_id driver_id)
    found ← s.last_location uid
    pure (shown_location found)

  unfoldable pub driver_repository : DriverRepository W
  driver_repository = record {
    create = create;
    delete_by_id = delete_by_id;
    update = update;
    find_by_id = find_by_id;
    find_by_user_id = find_by_user_id;
    find_available = find_available;
    save_vehicle = save_vehicle;
    find_vehicle = find_vehicle;
    set_availability = set_availability;
    get_availability = get_availability;
    record_location = record_location;
    latest_location = latest_location;
  }
